-- ===== src/CloudStore/RoundTrip.antt =====
-- The wire form of cloud ranges and regions is read back as they were (handlers/cloud-ip-stores.ts).
use guard_core_ts.Base.{
  ◌≡◌, refl, sym, ap, ◌∙◌, inl, inr, String, Bool, true, false, List, [], ◌∷◌, ◌++◌, Option, none,
  some, any, All, All-append, ◌==◌, if◌then◌else◌, ◌<>◌, str_eq, eq_iff, arith, if_both, if_cases,
  Bool-cases, ◌||◌,
}
use Prim.Native.Char.{Char, code}
use Prim.Native.String.append
use guard_core_ts.JsMap.{JsMap, get}
use guard_core_ts.JsMap.Laws.{get-put}
use guard_core_ts.CloudStore.{
  holds, add, with_region, encode_into, encode_cached_entries, cut_bar, annotate, decode_into,
  decode_cached_entries,
}

-- A network has no bar.
unfoldable pub has_bar : String → Bool
has_bar String.[] = false
has_bar (String.◌∷◌ c s) = if code c == b'|' then true else has_bar s

abbrev pub IsBarFree : String → Type 0
IsBarFree s = has_bar s ≡ false

IsBarFree-cons :
    (c : Char) (s : String) → IsBarFree (String.◌∷◌ c s) → ((code c == b'|') ≡ false) × IsBarFree s
unfolding has_bar
IsBarFree-cons c s h = ground arith

-- A region as it can be read: none if it is empty.
unfoldable pub readable : Option String → Option String
readable none = none
readable (some String.[]) = none
readable (some (String.◌∷◌ c s)) = some (String.◌∷◌ c s)

cut_plain : (s : String) → IsBarFree s → cut_bar s ≡ (s, none)
unfolding cut_bar
cut_plain String.[] h = refl
cut_plain (String.◌∷◌ c s) h = let (e, free) = IsBarFree-cons c s h in rw (e, cut_plain s free) refl

bar_front : (region : String) → cut_bar ("|" <> region) ≡ ("", some region)
unfolding cut_bar
bar_front region =
    ap cut_bar (append.cons "|" "" region ∙ ap (λ t. String.◌∷◌ "|" t) (append.nil region))

cut_annotated : (s region : String) → IsBarFree s → cut_bar (s <> "|" <> region) ≡ (s, some region)
unfolding cut_bar
cut_annotated String.[] region h = ap cut_bar (append.nil ("|" <> region)) ∙ bar_front region
cut_annotated (String.◌∷◌ c s) region h =
    let (e, free) = IsBarFree-cons c s h in
    ap cut_bar (append.cons c s ("|" <> region)) ∙ rw (e, cut_annotated s region free) refl

-- The entry of a network is cut into the network and its region.
cut-with_region :
    (network : String) (region : Option String)
    → IsBarFree network
    → cut_bar (with_region network region) ≡ (network, readable region)
unfolding with_region readable
cut-with_region network none h = cut_plain network h
cut-with_region network (some String.[]) h = cut_plain network h
cut-with_region network (some (String.◌∷◌ c s)) h = cut_annotated network (String.◌∷◌ c s) h

any-append : (p : String → Bool) (xs ys : List String) → any p (xs ++ ys) ≡ (any p xs || any p ys)
any-append p [] ys = refl
any-append p (x ∷ xs) ys = ground (arith, any-append p xs ys)

-- An element of a set passes a test that it passes by itself.
any-held :
    (p : String → Bool) (es : List String) (e : String)
    → holds es e ≡ true
    → p e ≡ true
    → any p es ≡ true
unfolding holds
any-held p [] e h k = ground arith
any-held p (d ∷ es) e h k = elim (Bool-cases (str_eq d e)) [
  | inl q ↦ let same : p d ≡ true = ap p ((eq_iff d e).0 q) ∙ k in rw same refl
  | inr q ↦ ground (arith, q, h, any-held p es e)
]

any-add : (p : String → Bool) (es : List String) (e : String) → any p (add es e) ≡ (any p es || p e)
unfolding add
any-add p es e =
    if_cases (λ xs. any p xs ≡ (any p es || p e)) (holds es e)
      (λ h. ground (arith, any-held p es e h)) (λ h. ground (arith, any-append p es (e ∷ [])))

holds-any : (es : List String) (s : String) → holds es s ≡ any (λ t. str_eq t s) es
unfolding holds
holds-any [] s = refl
holds-any (e ∷ es) s = ground (arith, holds-any es s)

holds-add : (es : List String) (e s : String) → holds (add es e) s ≡ (holds es s || str_eq e s)
holds-add es e s = rw (holds-any (add es e) s, holds-any es s) (any-add (λ t. str_eq t s) es e)

All-add : (P : String → Type 0) (es : List String) (e : String) → All P es → P e → All P (add es e)
unfolding add
All-add P es e h k = if_both (All P) (holds es e) h (All-append P es (e ∷ []) h (k, tt))

module _ (regions : JsMap String) where
  entry : String → String
  entry network = with_region network (get regions network)

  encode-any :
      (p : String → Bool) (ranges acc : List String)
      → any p (encode_into regions acc ranges) ≡ (any p acc || any (λ n. p (entry n)) ranges)
  unfolding encode_into entry
  encode-any p [] acc = ground arith
  encode-any p (n ∷ ranges) acc =
      ground (arith, any-add p acc (entry n), encode-any p ranges (add acc (entry n)))

  encode-All :
      (P : String → Type 0) (ranges acc : List String)
      → All P acc
      → All (λ n. P (entry n)) ranges
      → All P (encode_into regions acc ranges)
  unfolding encode_into entry
  encode-All P [] acc h k = h
  encode-All P (n ∷ ranges) acc h (k, ks) =
      encode-All P ranges (add acc (entry n)) (All-add P acc (entry n) h k) ks

-- Whether an entry is about a network.
abbrev is_about : String → String → Bool
is_about s e = str_eq (cut_bar e).0 s

decode-networks :
    (networks : List String) (regions : JsMap String) (es : List String) (s : String)
    → holds (decode_into networks regions es).0 s ≡ (holds networks s || any (is_about s) es)
unfolding decode_into
decode-networks networks regions [] s = ground arith
decode-networks networks regions (e ∷ es) s =
    let (prefix, region) = cut_bar e in
    ground (
      arith,
      holds-add networks prefix s,
      decode-networks (add networks prefix) (annotate prefix region regions) es s,
    )

abbrev or_else : Option String → Option String → Option String
or_else none old = old
or_else (some r) old = some r

get-annotate :
    (network : String) (region : Option String) (regions : JsMap String) (s : String)
    → get (annotate network region regions) s
      ≡ (if str_eq network s then or_else (readable region) (get regions s) else get regions s)
unfolding annotate readable
get-annotate network none regions s = ground arith
get-annotate network (some String.[]) regions s = ground arith
get-annotate network (some (String.◌∷◌ c t)) regions s = get-put regions network s (String.◌∷◌ c t)

-- Entries that agree on the region of a network.
abbrev Agrees : String → Option String → String → Type 0
Agrees s r e = is_about s e ≡ true → readable (cut_bar e).1 ≡ r

or_else_twice : (r old : Option String) → or_else r (or_else r old) ≡ or_else r old
or_else_twice none old = refl
or_else_twice (some r) old = refl

or_else-none : (r : Option String) → or_else r none ≡ r
or_else-none none = refl
or_else-none (some r) = refl

-- One entry more, by whether it is about the network.
choose :
    (about later : Bool) (r region now old : Option String)
    → (about ≡ true → region ≡ r)
    → now ≡ (if about then or_else region old else old)
    → (if later then or_else r now else now)
      ≡ (if (if about then true else later) then or_else r old else old)
choose false later r region now old h e = ap (λ n. if later then or_else r n else n) e
choose true true r region now old h e =
    ap (or_else r) (e ∙ ap (λ q. or_else q old) (h refl)) ∙ or_else_twice r old
choose true false r region now old h e = e ∙ ap (λ q. or_else q old) (h refl)

decode-regions :
    (networks : List String) (regions : JsMap String) (es : List String) (s : String)
    (r : Option String)
    → All (Agrees s r) es
    → get (decode_into networks regions es).1 s
      ≡ (if any (is_about s) es then or_else r (get regions s) else get regions s)
unfolding decode_into
decode-regions networks regions [] s r h = refl
decode-regions networks regions (e ∷ es) s r (h, hs) =
    let (prefix, region) = cut_bar e in
    decode-regions (add networks prefix) (annotate prefix region regions) es s r hs
    ∙ choose (is_about s e) (any (is_about s) es) r (readable region) _ (get regions s) h
        (get-annotate prefix region regions s)

readable_twice : (r : Option String) → readable (readable r) ≡ readable r
unfolding readable
readable_twice none = refl
readable_twice (some String.[]) = refl
readable_twice (some (String.◌∷◌ c s)) = refl

entry-about :
    (regions : JsMap String) (network s : String)
    → IsBarFree network
    → is_about s (entry regions network) ≡ str_eq network s
unfolding entry
entry-about regions network s h =
    ap (λ (r : String × Option String). str_eq r.0 s)
      (cut-with_region network (get regions network) h)

entry-Agrees :
    (regions : JsMap String) (network s : String)
    → IsBarFree network
    → Agrees s (readable (get regions s)) (entry regions network)
unfolding entry
entry-Agrees regions network s h e =
    let cut = cut-with_region network (get regions network) h in
    let same = (eq_iff network s).0 (sym (entry-about regions network s h) ∙ e) in
    ap (λ (r : String × Option String). readable r.1) cut
    ∙ readable_twice (get regions network)
    ∙ ap (λ n. readable (get regions n)) same

entries-about :
    (regions : JsMap String) (ranges : List String) (s : String)
    → All IsBarFree ranges
    → any (λ n. is_about s (entry regions n)) ranges ≡ holds ranges s
unfolding holds
entries-about regions [] s h = refl
entries-about regions (n ∷ ranges) s (h, hs) =
    ground (arith, entry-about regions n s h, entries-about regions ranges s hs)

entries-Agree :
    (regions : JsMap String) (ranges : List String) (s : String)
    → All IsBarFree ranges
    → All (λ n. Agrees s (readable (get regions s)) (entry regions n)) ranges
entries-Agree regions [] s h = tt
entries-Agree regions (n ∷ ranges) s (h, hs) =
    (entry-Agrees regions n s h, entries-Agree regions ranges s hs)

-- Networks without a bar, encoded with their regions and decoded, are the same networks, each with the
-- region that it had, unless that was the empty text.
pub decode-encode :
    (ranges : List String) (regions : JsMap String) (s : String)
    → All IsBarFree ranges
    → let decoded = decode_cached_entries (encode_cached_entries ranges regions) in
      (holds decoded.0 s ≡ holds ranges s)
      × (get decoded.1 s ≡ (if holds ranges s then readable (get regions s) else none))
unfolding decode_cached_entries encode_cached_entries holds get
decode-encode ranges regions s h =
    let es = encode_into regions [] ranges in
    let about = encode-any regions (is_about s) ranges [] ∙ entries-about regions ranges s h in
    (
      decode-networks [] [] es s ∙ about,
      decode-regions [] [] es s (readable (get regions s)) (
            encode-All regions (Agrees s (readable (get regions s))) ranges [] tt
              (entries-Agree regions ranges s h))
          ∙ ap (λ (b : Bool). if b then or_else (readable (get regions s)) none else none) about
          ∙ ap (λ r. if holds ranges s then r else none) (or_else-none (readable (get regions s))),
    )
