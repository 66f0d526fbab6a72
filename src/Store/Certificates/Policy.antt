-- ===== src/Store/Certificates/Policy.antt =====
-- clonePolicy and defaultCertificatePolicy of internal/store/certificates.go. The clone goes
-- through JSON, whose `omitempty` leaves out an empty map: it comes back as nil.
use azure_keyvault_emulator.Prelude.{String, false, Option, none, some, [], ◌∷◌, ◌≡◌, refl, ap}
use Prim.Native.String.{◌++◌}
use azure_keyvault_emulator.Prelude.Dict.{Dict}
use azure_keyvault_emulator.Model.{CertificatePolicy, Props, Json}

-- A map after it has been written and read back.
unfoldable pub marshalled : Props → Props
marshalled none = none
marshalled (some []) = none
marshalled (some (f ∷ fs)) = some (f ∷ fs)

unfoldable pub marshalled_policy : CertificatePolicy → CertificatePolicy
marshalled_policy policy = record policy {
  issuer = marshalled policy.issuer;
  key_props = marshalled policy.key_props;
  secret_props = marshalled policy.secret_props;
  x509_props = marshalled policy.x509_props;
  attributes = marshalled policy.attributes;
}

unfoldable pub clone_policy : Option CertificatePolicy → Option CertificatePolicy
clone_policy none = none
clone_policy (some policy) = some (marshalled_policy policy)

abbrev pub no_policy : CertificatePolicy
no_policy = record {
  id = "";
  issuer = none;
  key_props = none;
  secret_props = none;
  x509_props = none;
  lifetime_actions = [];
  attributes = none;
}

unfoldable pub or_props : Dict Json → Props → Props
or_props default none = some default
or_props default (some given) = some given

unfoldable pub policy_or_none : Option CertificatePolicy → CertificatePolicy
policy_or_none none = no_policy
policy_or_none (some policy) = policy

unfoldable pub default_certificate_policy : String → Option CertificatePolicy → CertificatePolicy
default_certificate_policy name policy =
    let out = marshalled_policy (policy_or_none policy) in
    record out {
      issuer = or_props (("name", Json.str "Self") ∷ []) out.issuer;
      key_props =
          or_props
            (("kty", Json.str "RSA")
              ∷ ("key_size", Json.num "2048")
              ∷ ("reuse_key", Json.bool false)
              ∷ [])
            out.key_props;
      secret_props =
          or_props (("contentType", Json.str "application/x-pkcs12") ∷ []) out.secret_props;
      x509_props = or_props (("subject", Json.str ("CN=" ++ name)) ∷ []) out.x509_props;
    }

pub marshalled_idem : (p : Props) → marshalled (marshalled p) ≡ marshalled p
unfolding marshalled
marshalled_idem none = refl
marshalled_idem (some []) = refl
marshalled_idem (some (f ∷ fs)) = refl

pub marshalled_policy_idem :
    (p : CertificatePolicy) → marshalled_policy (marshalled_policy p) ≡ marshalled_policy p
unfolding marshalled_policy
marshalled_policy_idem p = simp marshalled_idem

pub clone_policy_idem :
    (p : Option CertificatePolicy) → clone_policy (clone_policy p) ≡ clone_policy p
unfolding clone_policy
clone_policy_idem none = refl
clone_policy_idem (some p) = ap some (marshalled_policy_idem p)

marshalled-or_props :
    (f : String × Json) (fs : Dict Json) (p : Props)
    → marshalled (or_props (f ∷ fs) (marshalled p)) ≡ or_props (f ∷ fs) (marshalled p)
unfolding marshalled or_props
marshalled-or_props f fs none = refl
marshalled-or_props f fs (some []) = refl
marshalled-or_props f fs (some (g ∷ gs)) = refl

-- The defaults survive a clone, and filling them in a second time changes nothing.
pub marshalled_policy-default :
    (name : String) (policy : Option CertificatePolicy)
    → marshalled_policy (default_certificate_policy name policy)
      ≡ default_certificate_policy name policy
unfolding marshalled_policy default_certificate_policy
marshalled_policy-default name policy = simp (marshalled-or_props, marshalled_idem)
