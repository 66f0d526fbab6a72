-- ===== src/Lib.antt =====
-- An emulator of Azure Key Vault: an HTTP server in Go whose handlers call a store of secrets,
-- keys and certificates. This development models the handlers, the store, the cryptography under
-- it, the encryption of secret values, and the web interface with its accounts, and proves what makes
-- them correct.
--
-- Prelude: Go's maps, lists, `strconv`, `encoding/hex` and `sort`, and methods that change a state
-- and end in a value, an error or a panic. `Outcome.Runs` has sequences of calls, and
-- `Outcome.Yields` what holds after a call that ends well.
-- Model: the types of internal/model.
-- Store: the in-memory store of internal/store. `Store` is the struct; `Metadata` has the helpers
-- for attributes and tags, `Entries` what the six maps have in common, `Pagination` paginateNames.
-- `Secrets`, `Keys` and `Certificates` have the methods of secrets.go, keys.go and certificates.go,
-- one function each, in their child modules `Crypto` (Encrypt to UnwrapKey) and `Issuance`
-- (CreateCertificate, ImportCertificate) as well. `Calls` has the calls of each kind as data. The
-- clock's reading and the random bytes are arguments of the methods that read them. A method holds
-- the mutex from before its first read to its return, or reads the store once, so methods run one
-- after another and the mutex is not modelled. A pointer into the store is written through by
-- writing the changed version back; a record that is answered is a clone, which shares nothing.
-- Crypto: internal/crypto/keys.go. `Interface` is what the store uses of it; `Keys` has the JSON web
-- keys, GenerateKey, ImportKey and the operations by key type, which fill the interface; `KeyWrap`
-- the AES key wrap, `Cbc` the CBC mode with its padding, `Keys.Numbers` the bytes of a number and
-- `Keys.Signatures` what is verified of them. A byte is a number, and that it is
-- below 256 is a hypothesis where it matters. `crypto/rsa`, `crypto/ecdsa`, `crypto/aes` and
-- `encoding/base64` are parameters.
-- Auth: the accounts and sessions of internal/auth/auth.go, over the rows of its two tables.
-- Encryption: internal/encryption/encryption.go over an AEAD and a pbkdf2 that are parameters, and in `Secrets`
-- the store of internal/web/encryptedstore.go, which wraps the in-memory one.
-- Storer: the interface that the handlers take of the store, with its implementation by `Store` in
-- `Memory`; `Laws` is what a store promises that keeps a property of its state.
-- Http: the handlers of internal/handler. A handler is a method on the state of its `Storer` that
-- ends in a response, or in an error that writeError is given. `Secrets`, `Keys` and `Certificates`
-- have the handlers of secrets.go, keys.go and certificates.go, the module itself those of
-- handler.go, and `Routes` the patterns that are registered. `http.ServeMux`, `encoding/json` and
-- `url.Values.Encode` are parameters.
-- SqlStore: the secrets of internal/store/sqlstore/sqlstore.go over the rows of their two tables.
-- `Secrets`, `SoftDeletes` and `Backups` have the operations, `Represents` says when tables hold what an
-- in-memory store does, a module per operation compares the two on it, and `Refinement` runs both on the
-- calls of `Requests`. Encoding/json is a parameter.
-- Web: internal/web/handler.go, over the accounts, the store behind the encrypted one, and the key.
-- `Setup` has the status, the setup and the unlocking, `Accounts` the login and the guards, `Objects`
-- and `Details` the secrets, keys and certificates, and `Routes` who may call what.
--
-- The loops are recursive on their lists or counters; that of itoa and of `big.Int.Bytes` is
-- recursive on the number itself, which has no more digits than its value.
--
-- Not modelled: the keys and certificates of the SQL store, the generation and parsing of
-- certificates, the pages of the web interface, and the process around them. A `crypto/rand` that
-- fails is not modelled either, nor a database that fails other than by a constraint.
pub mod Prelude
pub mod Model
pub mod Crypto
pub mod Store
pub mod Auth
pub mod Encryption
pub mod Storer
pub mod SqlStore
pub mod Http
pub mod Web
