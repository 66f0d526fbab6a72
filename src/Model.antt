-- ===== src/Model.antt =====
-- The request and attribute types of internal/model: common.go, secret.go, key.go and
-- certificate.go. A pointer field is an `Option`, and so is a map or a slice that the code tests
-- against nil. Go's `int64` times are `ℤ` where a client sends them and `ℕ` where the clock does.
use azure_keyvault_emulator.Prelude.{ℕ, String, Bool, Option, List}
use azure_keyvault_emulator.Prelude.Dict.{Dict}
use azure_keyvault_emulator.Prelude.Text.Decimal.{ℤ}

pub record Attributes : Type 0 where
  pub enabled : Option Bool
  pub not_before : Option ℤ
  pub expires : Option ℤ
  pub created : ℕ
  pub updated : ℕ
  pub recovery_level : String
  pub recoverable_days : ℕ

-- `map[string]string`, which may be nil.
abbrev pub Tags : Type 0
Tags = Option (Dict String)

pub record SecretSetRequest : Type 0 where
  pub value : String
  pub content_type : String
  pub attributes : Option Attributes
  pub tags : Tags

pub record SecretUpdateRequest : Type 0 where
  pub content_type : Option String
  pub attributes : Option Attributes
  pub tags : Tags

pub record JsonWebKey : Type 0 where
  pub kid : String
  pub kty : String
  pub key_ops : List String
  pub n : String
  pub e : String
  pub d : String
  pub p : String
  pub q : String
  pub dp : String
  pub dq : String
  pub qi : String
  pub crv : String
  pub x : String
  pub y : String
  pub k : String

pub record CreateKeyRequest : Type 0 where
  pub kty : String
  pub key_size : ℤ
  pub key_ops : List String
  pub attributes : Option Attributes
  pub tags : Tags
  pub crv : String
  pub value : String

pub record ImportKeyRequest : Type 0 where
  pub key : JsonWebKey
  pub attributes : Option Attributes
  pub tags : Tags

pub record UpdateKeyRequest : Type 0 where
  pub attributes : Option Attributes
  pub tags : Tags
  pub key_ops : Option (List String)

pub record EncryptRequest : Type 0 where
  pub alg : String
  pub value : String
  pub iv : String

pub record SignRequest : Type 0 where
  pub alg : String
  pub value : String

pub record VerifyRequest : Type 0 where
  pub alg : String
  pub digest : String
  pub value : String

-- A value that JSON has decoded into `any`; a number is kept as its text.
mutual
  pub data Json : Type 0 where
    null : Json
    bool : Bool → Json
    num : String → Json
    str : String → Json
    arr : Items → Json
    obj : Fields → Json

  pub data Items : Type 0 where
    nil : Items
    cons : Json → Items → Items

  pub data Fields : Type 0 where
    end : Fields
    field : String → Json → Fields → Fields

-- `map[string]any`, which may be nil.
abbrev pub Props : Type 0
Props = Option (Dict Json)

pub record CertificatePolicy : Type 0 where
  pub id : String
  pub issuer : Props
  pub key_props : Props
  pub secret_props : Props
  pub x509_props : Props
  pub lifetime_actions : List (Dict Json)
  pub attributes : Props

pub record CreateCertificateRequest : Type 0 where
  pub policy : Option CertificatePolicy
  pub attributes : Option Attributes
  pub tags : Tags

pub record ImportCertificateRequest : Type 0 where
  pub value : String
  pub password : String
  pub policy : Option CertificatePolicy
  pub attributes : Option Attributes
  pub tags : Tags

pub record UpdateCertificateRequest : Type 0 where
  pub attributes : Option Attributes
  pub tags : Tags

pub record CertificateOperation : Type 0 where
  pub id : String
  pub status : String
  pub target : String
  pub status_details : String
