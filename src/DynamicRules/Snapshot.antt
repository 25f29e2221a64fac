-- ===== src/DynamicRules/Snapshot.antt =====
-- packages/core/src/models/dynamic-rule-snapshot.ts: the envelope of the last-known rules. The rules
-- are those that DynamicRulesSchema has made, so that no field is missing; versions and limits are
-- natural numbers. Parameters are the runtime's: `Date` and its printing, JSON, and the strict schema
-- of the envelope, none where they throw.
use guard_core_ts.Base.{
  Bool, List, Option, String, [], false, if◌then◌else◌, none, not, some, str_eq, ℕ, ◌==◌, ◌||◌, ◌∷◌,
}
use mathlib.Core.Option

pub record Rules : Type 0 where
  pub rule_id : String
  pub version : ℕ
  pub timestamp : String
  pub expires_at : Option String
  pub ttl : ℕ
  pub ip_blacklist : List String
  pub ip_whitelist : List String
  pub ip_ban_duration : ℕ
  pub blocked_countries : List String
  pub whitelist_countries : List String
  pub global_rate_limit : Option ℕ
  pub global_rate_window : Option ℕ
  pub endpoint_rate_limits : List (String × ℕ × ℕ)
  pub blocked_cloud_providers : List String
  pub blocked_user_agents : List String
  pub suspicious_patterns : List String
  pub enable_penetration_detection : Option Bool
  pub enable_ip_banning : Option Bool
  pub enable_rate_limiting : Option Bool
  pub emergency_mode : Bool
  pub emergency_whitelist : List String

-- The rules on the wire: the fields of the live model, and three that it does not have.
pub record Wire : Type 0 where
  pub fields : Rules
  pub auto_ban_threshold : Option ℕ
  pub auto_ban_duration : Option ℕ
  pub enable_rate_limit_auto_ban : Option Bool

pub record Envelope : Type 0 where
  pub schema_version : ℕ
  pub rules : Wire

abbrev snapshot_schema_version : ℕ
snapshot_schema_version = 1

-- What the runtime supplies.
pub record Codec : Type 0 where
  pub time_of : String → Option ℕ
  pub to_iso_string : ℕ → String
  pub stringify : Envelope → String
  pub parse : String → Option Envelope

-- `iso.endsWith('.000Z') ? iso.slice(0, iso.length - 5) + 'Z' : iso`
unfoldable pub cut_millis : String → String
cut_millis String.[] = ""
cut_millis (String.◌∷◌ c iso) =
    let rest = cut_millis iso in
    if str_eq (String.◌∷◌ c iso) ".000Z" then "Z" else String.◌∷◌ c rest

-- A set keeps the first of equal elements.
abbrev pub includes : List String → String → Bool
includes [] x = false
includes (y ∷ xs) x = str_eq y x || includes xs x

abbrev set_after : List String → List String → List String
set_after seen [] = []
set_after seen (x ∷ xs) =
    let fresh = x ∷ set_after (x ∷ seen) xs in
    let rest = set_after seen xs in if includes seen x then rest else fresh

-- `new Set(xs)`, in its order of insertion
abbrev pub set_of : List String → List String
set_of xs = set_after [] xs

module _ (codec : Codec) where
  -- `normalizeTimestamp`; none for the sentinel.
  unfoldable pub normalize_timestamp : String → Option String
  unfolding cut_millis
  normalize_timestamp value =
      if str_eq value ""
      then none
      else Option.map (λ (t : ℕ). cut_millis (codec.to_iso_string t)) (codec.time_of value)

  -- `expiresAt`; none where it throws.
  abbrev pub normalize_expiry : Option String → Option (Option String)
  normalize_expiry none = some none
  normalize_expiry (some raw) = Option.map some (normalize_timestamp raw)

  abbrev pub envelope_of : Rules → String → Option String → Envelope
  envelope_of rules timestamp expires_at = record {
    schema_version = snapshot_schema_version;
    rules = record {
      fields = record rules { timestamp = timestamp; expires_at = expires_at };
      auto_ban_threshold = none;
      auto_ban_duration = none;
      enable_rate_limit_auto_ban = none;
    };
  }

  abbrev pub dump_with : Rules → Option String → Option (Option String) → Option String
  dump_with rules none expires_at = none
  dump_with rules (some timestamp) none = none
  dump_with rules (some timestamp) (some expires_at) =
      some (codec.stringify (envelope_of rules timestamp expires_at))

  -- None where it throws.
  unfoldable pub dump_last_known_rules_snapshot : Rules → Option String
  unfolding normalize_timestamp
  dump_last_known_rules_snapshot rules =
      dump_with rules (normalize_timestamp rules.timestamp) (normalize_expiry rules.expires_at)

  abbrev pub load_envelope : Option Envelope → Option Rules
  load_envelope none = none
  load_envelope (some envelope) =
      let r = envelope.rules.fields in
      if not (envelope.schema_version == snapshot_schema_version)
      then none
      else some (record r { blocked_cloud_providers = set_of r.blocked_cloud_providers })

  unfoldable pub load_last_known_rules_snapshot : String → Option Rules
  load_last_known_rules_snapshot payload = load_envelope (codec.parse payload)
