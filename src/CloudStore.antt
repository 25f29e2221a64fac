-- ===== src/CloudStore.antt =====
-- packages/core/src/handlers/cloud-ip-stores.ts: the wire form of cloud address ranges with their
-- regions, and the store in memory with its time to live. A `Set` of strings is a list in insertion
-- order.
pub mod RoundTrip
pub mod Lifetime
pub mod Tests
use guard_core_ts.Base.{
  ℕ, ◌+◌, ◌*◌, String, Bool, true, false, List, [], ◌∷◌, ◌++◌, Option, none, some, leb, ◌==◌,
  if◌then◌else◌, ◌<>◌, str_eq,
}
use Prim.Native.Char.{code}
use Prim.Native.String
use guard_core_ts.JsMap.{JsMap, get, put, delete}

-- `set.has(s)` and `set.add(s)`
unfoldable pub holds : List String → String → Bool
holds [] s = false
holds (t ∷ ts) s = if str_eq t s then true else holds ts s

unfoldable pub add : List String → String → List String
add ts s = if holds ts s then ts else ts ++ s ∷ []

-- A region is annotated if it is there and not the empty text.
unfoldable pub with_region : String → Option String → String
with_region network none = network
with_region network (some String.[]) = network
with_region network (some (String.◌∷◌ c s)) = network <> "|" <> String.◌∷◌ c s

-- `encodeCachedEntries`: the loop, and the function.
unfoldable pub encode_into : JsMap String → List String → List String → List String
encode_into regions encoded [] = encoded
encode_into regions encoded (network ∷ ranges) =
    encode_into regions (add encoded (with_region network (get regions network))) ranges

unfoldable pub encode_cached_entries : List String → JsMap String → List String
encode_cached_entries ranges regions = encode_into regions [] ranges

-- An entry up to its first bar, and what follows that.
unfoldable pub cut_bar : String → String × Option String
cut_bar String.[] = ("", none)
cut_bar (String.◌∷◌ c s) =
    let rest = cut_bar s in if code c == b'|' then ("", some s) else (String.◌∷◌ c rest.0, rest.1)

unfoldable pub annotate : String → Option String → JsMap String → JsMap String
annotate network none regions = regions
annotate network (some String.[]) regions = regions
annotate network (some (String.◌∷◌ c s)) regions = put regions network (String.◌∷◌ c s)

-- `decodeCachedEntries`: the loop, and the function.
unfoldable pub decode_into : List String → JsMap String → List String → List String × JsMap String
decode_into networks regions [] = (networks, regions)
decode_into networks regions (entry ∷ entries) =
    let (prefix, region) = cut_bar entry in
    decode_into (add networks prefix) (annotate prefix region regions) entries

unfoldable pub decode_cached_entries : List String → List String × JsMap String
decode_cached_entries entries = decode_into [] [] entries

-- `InMemoryCloudIpStore`
pub record CloudIpStore : Type 0 where
  pub data_of : JsMap (List String)
  pub expires_at : JsMap ℕ

unfoldable pub forget : String → CloudIpStore → CloudIpStore
forget provider s = record {
  data_of = delete s.data_of provider;
  expires_at = delete s.expires_at provider;
}

-- Whether an entry is over, with the time it ends, if any.
unfoldable pub is_over : ℕ → Option ℕ → Bool
is_over now none = false
is_over now (some at) = leb at now

unfoldable pub get_ranges : String → ℕ → CloudIpStore → Option (List String) × CloudIpStore
get_ranges provider now s =
    if is_over now (get s.expires_at provider)
    then (none, forget provider s)
    else (get s.data_of provider, s)

unfoldable pub set_expiry : String → Option ℕ → ℕ → JsMap ℕ → JsMap ℕ
set_expiry provider none now expires_at = delete expires_at provider
set_expiry provider (some ttl) now expires_at = put expires_at provider (now + ttl * 1000)

unfoldable pub set_ranges : String → List String → Option ℕ → ℕ → CloudIpStore → CloudIpStore
set_ranges provider ranges ttl now s = record {
  data_of = put s.data_of provider ranges;
  expires_at = set_expiry provider ttl now s.expires_at;
}

unfoldable pub clear : CloudIpStore → CloudIpStore
clear s = record { data_of = []; expires_at = [] }
