-- ===== src/Tenants.antt =====
-- The tenants, whose applications may sign requests: cmd/modapi/http/portal/tenant.go,
-- cmd/modapi/http/tenant.go and `GenerateAppIDAndKey` of cmd/modapi/security/api.go.
pub mod Handlers
pub mod Registered
pub mod Signing
use walletus.Base.{ℕ, String, Option, none, some, List, [], ◌∷◌, ◌++◌, Result, ok, err, take}
use walletus.Base.Decimal.{Bytes, codes, format}
use walletus.Base.Numerals.{hex_encode}
use walletus.Gorm.{Table, DbError, IsTable, IsApart}
use walletus.Model.{SysChannel, Tenant, channel_key, tenant_key}
use walletus.Sealed.{CipherLib}
use walletus.Sealed.Master.{KdfParams, SeedLib}

-- The tables, the key libraries, the hashes of the application's key, and `json.Marshal` of the
-- parameters of the key derivation; `tenants_by` is `Where("id = ? and flag = 0", text).First`.
pub record TenantEnv : Type 1 where
  pub Db : Type 0
  pub channels : Table Db SysChannel
  pub tenants : Table Db Tenant
  pub tenants_by : Bytes → Db → Result DbError Tenant
  pub begin_error : Db → Option String
  pub commit_error : Db → Option String
  pub ciphers : CipherLib
  pub seeds : SeedLib
  pub sha256 : Bytes → Bytes
  pub base32 : Bytes → Bytes
  pub marshal_kdf : KdfParams → String
  -- the bytes of a text, of which Go's strings are made (UTF-8)
  pub utf8 : String → Bytes

pub record IsTenantEnv (e : TenantEnv) : Type 0 where
  pub channels_table : IsTable channel_key e.channels
  pub tenants_table : IsTable tenant_key e.tenants
  pub channels_apart : IsApart e.channels e.tenants
  pub tenants_apart : IsApart e.tenants e.channels

-- `PortalTenantCreateRequest`
pub record PortalTenantRequest : Type 0 where
  pub id : ℕ
  pub name : String
  pub desc : String
  pub callback : String
  pub unique_id : String

-- `TenantCreateRequest`
pub record TenantRequest : Type 0 where
  pub name : String
  pub unique_id : String
  pub callback : String

abbrev pub secret_salt : Bytes
secret_salt = codes "oP3z@6N!cY%2Qm8#Ls&bT7xR^F1uW$h9K*Za4EpjDqG"

-- The digits drawn, of which an error leaves none.
abbrev pub drawn_digits : Result String Bytes → Bytes
drawn_digits (ok s) = s
drawn_digits (err text) = []

-- Texts with a bar between them.
unfoldable pub barred : Bytes → List Bytes → Bytes
barred s [] = s
barred s (t ∷ ts) = s ++ (b'|' ∷ barred t ts)

module _ (e : TenantEnv) where
  open e use {sha256, base32}

  unfoldable pub generate_prefix : Bytes → Bytes → Bytes → Bytes
  unfolding barred
  generate_prefix unique_id id name = take 5 (base32 (sha256 (barred unique_id (name ∷ id ∷ []))))

  -- The ID and the key of a new application.
  unfoldable pub generate_app_id_and_key : Result String Bytes → Bytes → Bytes → ℕ → Bytes × Bytes
  unfolding generate_prefix
  generate_app_id_and_key drawn unique_id name ts =
      let id = drawn_digits drawn in
      let prefix = generate_prefix unique_id id name in
      let full_hash =
        hex_encode (sha256 (barred prefix (unique_id ∷ id ∷ name ∷ format ts ∷ []))) in
      let app_id = prefix ++ (b'-' ∷ take 16 full_hash) in
      (app_id, hex_encode (sha256 (barred app_id (format ts ∷ secret_salt ∷ []))))
