-- ===== src/BanMigration/Lifetime.antt =====
-- What the migration of a ban key does to the bans of a server (handlers/ip-ban.ts).
use mathlib.Core.Option
use Prim.Native.String.append
use guard_core_ts.Base.{
  ℕ, ◌<◌, ◌≡◌, refl, ap, sym, ◌∙◌, String, true, false, Option, some, ltb, max, if◌then◌else◌,
  str_eq, ◌<>◌, eq_iff, eq_refl, arith, if_cases,
}
use guard_core_ts.BanMigration.{
  Parsed, canonicalize_ip, Ttl, gone, left, RawClient, remaining, move_key, on_ttl, on_value,
  migrate_one_ban_key,
}

-- A server whose client answers and follows the documented commands: what a key holds and how long it
-- lives is what was last set, and a deleted key is gone.
pub record IsServer {S : Type 0} (client : RawClient S) (ttl_of : S → String → Ttl) : Type 0 where
  pub gets :
      (key : String) (s : S) → (value : Option String) × (client.get_value key s ≡ some (value, s))
  pub lives : (key : String) (s : S) → client.pttl key s ≡ some (ttl_of s key, s)
  pub sets :
      (key value : String) (ttl : ℕ) (s : S)
      → 0 < ttl
      → (t : S) × (client.set_px key value ttl s ≡ some t)
        × ((k : String) → ttl_of t k ≡ (if str_eq key k then left ttl else ttl_of s k))
  pub deletes :
      (key : String) (s : S)
      → (t : S) × (client.del key s ≡ some t)
        × ((k : String) → ttl_of t k ≡ (if str_eq key k then gone else ttl_of s k))

-- How long a key lives after the migration of `key` to `canonical`: the legacy key is gone, the
-- canonical one lives as long as the longer of the two, and the others live as before.
abbrev pub Moved : {S : Type 0} → (S → String → Ttl) → String → String → S → S → Type 0
Moved ttl_of key canonical s t =
    (ttl_of t key ≡ gone)
    × (remaining (ttl_of t canonical)
        ≡ max (remaining (ttl_of s canonical)) (remaining (ttl_of s key)))
    × ((k : String) → str_eq key k ≡ false → str_eq canonical k ≡ false → ttl_of t k ≡ ttl_of s k)

rest_of : String → String
rest_of String.[] = String.[]
rest_of (String.◌∷◌ c s) = s

append_cancel : (p a b : String) → p <> a ≡ p <> b → a ≡ b
unfolding rest_of
append_cancel String.[] a b e = sym (append.nil a) ∙ e ∙ append.nil b
append_cancel (String.◌∷◌ c p) a b e =
    append_cancel p a b (ap rest_of (sym (append.cons c p a) ∙ e ∙ append.cons c p b))

-- Keys of one prefix differ where their addresses do.
prefix_differs :
    (prefix raw canonical : String)
    → str_eq canonical raw ≡ false
    → str_eq (prefix <> raw) (prefix <> canonical) ≡ false
prefix_differs prefix raw canonical ne = ground (
  arith,
  ne,
  eq_iff (prefix <> raw) (prefix <> canonical),
  eq_iff canonical raw,
  append_cancel prefix raw canonical,
)

longer : (old new : ℕ) → ltb new old ≡ true → remaining (left old) ≡ max new old
unfolding remaining
longer old new e = ground (arith, e)

module _ {S : Type 0} (client : RawClient S) (ttl_of : S → String → Ttl)
    (server : IsServer client ttl_of) where
  -- The legacy key is deleted after `s` became `s'`, in which only the canonical key may live on longer.
  del-Moved :
      (key canonical : String) (s s' : S)
      → str_eq key canonical ≡ false
      → remaining (ttl_of s' canonical)
        ≡ max (remaining (ttl_of s canonical)) (remaining (ttl_of s key))
      → ((k : String) → str_eq canonical k ≡ false → ttl_of s' k ≡ ttl_of s k)
      → (t : S) × (client.del key s' ≡ some t) × Moved ttl_of key canonical s t
  del-Moved key canonical s s' ne longer others =
      let (t, ran, after) = server.deletes key s' in
      (
        t,
        ran,
        (
          after key ∙ rw (eq_refl key) refl,
          ap remaining (after canonical ∙ rw ne refl) ∙ longer,
          (λ k e f. after k ∙ rw e (others k f)),
        ),
      )

  move_key-Moved :
      (key canonical : String) (value : Option String) (s : S)
      → str_eq key canonical ≡ false
      → (t : S) × (move_key client key canonical value
            (remaining (ttl_of s key))
            (ttl_of s canonical, s)
          ≡ some t)
        × Moved ttl_of key canonical s t
  unfolding move_key Option.bind
  move_key-Moved key canonical value s ne =
      let old = remaining (ttl_of s key) in
      let new = remaining (ttl_of s canonical) in
      if_cases (λ (o : Option S). (t : S) × (o ≡ some t) × Moved ttl_of key canonical s t)
        (ltb new old)
        (λ e.
          let (s', ran, after) =
            server.sets canonical (Option.get_or value "") old s (ground (arith, e)) in
          let set_to : ttl_of s' canonical ≡ left old =
            after canonical ∙ rw (eq_refl canonical) refl in
          let (t, ran', moved) =
            del-Moved key canonical s s' ne (ap remaining set_to ∙ longer old new e)
              (λ k f. after k ∙ rw f refl) in
          (t, rw ran ran', moved))
        (λ e. del-Moved key canonical s s ne (ground (arith, e)) (λ k f. refl))

  on_ttl-Moved :
      (key canonical : String) (value : Option String) (s : S)
      → str_eq key canonical ≡ false
      → (t : S) × (on_ttl client key canonical value (ttl_of s key, s) ≡ some t)
        × Moved ttl_of key canonical s t
  unfolding on_ttl Option.bind
  on_ttl-Moved key canonical value s ne =
      if_cases (λ (o : Option S). (t : S) × (o ≡ some t) × Moved ttl_of key canonical s t)
        (ltb 0 (remaining (ttl_of s key)))
        (λ e. rw (server.lives canonical s) (move_key-Moved key canonical value s ne))
        (λ e. del-Moved key canonical s s ne (ground (arith, e)) (λ k f. refl))

  -- On a server that follows the documented commands, the migration of a key whose address is spelt in
  -- another way than its canonical form ends: the legacy key is gone, the canonical key lives as long
  -- as the longer lived of the two, and no other key changes. A key that does not expire counts as
  -- one that has no time left.
  pub migrate-Moved :
      (parse : String → Option Parsed) (prefix raw_ip : String) (s : S)
      → str_eq (canonicalize_ip parse raw_ip) raw_ip ≡ false
      → (t : S) × (migrate_one_ban_key client parse prefix raw_ip s ≡ some t)
        × Moved ttl_of (prefix <> raw_ip) (prefix <> canonicalize_ip parse raw_ip) s t
  unfolding migrate_one_ban_key on_value Option.bind
  migrate-Moved parse prefix raw_ip s ne =
      let key = prefix <> raw_ip in
      let canonical = prefix <> canonicalize_ip parse raw_ip in
      let (value, got) = server.gets key s in
      rw (ne, got, server.lives key s)
        (on_ttl-Moved key canonical value s (prefix_differs prefix raw_ip _ ne))
