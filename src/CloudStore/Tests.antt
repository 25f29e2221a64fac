-- ===== src/CloudStore/Tests.antt =====
-- Runs of handlers/cloud-ip-stores.ts, and the theorems about it at concrete inputs.
use guard_core_ts.Base.{◌≡◌, refl, String, true, List, [], ◌∷◌, none, some}
use guard_core_ts.JsMap.{JsMap, get, put}
use guard_core_ts.CloudStore.{
  CloudIpStore, holds, add, with_region, encode_into, encode_cached_entries, decode_cached_entries,
  is_over, get_ranges, set_ranges, set_expiry,
}
use guard_core_ts.CloudStore.RoundTrip.{has_bar, readable, decode-encode}

abbrev empty_store : CloudIpStore
empty_store = record { data_of = []; expires_at = [] }

abbrev ranges : List String
ranges = "10.0.0.0/8" ∷ "fd00::/8" ∷ []

abbrev regions : JsMap String
regions = ("10.0.0.0/8", "eu-west-1") ∷ ("fd00::/8", "") ∷ []

encoded : encode_cached_entries ranges regions ≡ "10.0.0.0/8|eu-west-1" ∷ "fd00::/8" ∷ []
unfolding encode_cached_entries encode_into add holds with_region get
encoded = refl

decode-encode_example :
    (holds (decode_cached_entries (encode_cached_entries ranges regions)).0 "fd00::/8" ≡ true)
    × (get (decode_cached_entries (encode_cached_entries ranges regions)).1 "fd00::/8" ≡ none)
unfolding has_bar holds readable get
decode-encode_example = decode-encode ranges regions "fd00::/8" (refl, (refl, tt))

expired : (get_ranges "aws" 5000 (set_ranges "aws" ranges (some 5) 0 empty_store)).0 ≡ none
unfolding get_ranges set_ranges set_expiry is_over get put
expired = refl
