-- ===== src/IpBan/Tests.antt =====
-- Runs of handlers/ip-ban.ts, and the theorems about it at concrete inputs.
use Prim.Native.Char.{code}
use guard_core_ts.Base.{
  inl, inr, ℕ, zero, suc, ◌<◌, ◌≡◌, refl, ap, ◌≢◌, String, Bool, true, false, List, [], ◌∷◌, none,
  if◌then◌else◌, arith, eq_iff, str_eq, Bool-cases,
}
use guard_core_ts.JsMap.{JsMap, get, has, put, size}
use guard_core_ts.JsMap.Laws.{IsMap}
use guard_core_ts.Redis.{ok, redis_error, absent, expiry, RedisHandler}
use guard_core_ts.IpBan.{
  BanEntry, Bans, Services, max_size, ban_entry, ban_ip, on_entry, ask_redis, on_stored,
  is_ip_banned, record_ban, make_room,
}
use guard_core_ts.IpBan.Memory.{IsBounded}
use guard_core_ts.IpBan.Lasting.{AllSpare, run-is_ip_banned}
use guard_core_ts.IpBan.Expiry.{is_ip_banned-is_live, is_live}
use guard_core_ts.IpBan.Capacity.{Call, bans, asks, unbans, resets, run, run-IsBounded, step}

-- A server that holds one ban, until 90000, and rejects every write.
abbrev holding : RedisHandler (Unit {0})
holding = record {
  set_key = λ namespace key value ttl r. (redis_error, r);
  get_key = λ namespace key r. (ok (if str_eq key "held" then expiry 90000 else absent), r);
  delete_key = λ namespace key r. (redis_error, r);
  delete_pattern = λ pattern r. (redis_error, r);
}

abbrev services : Bool → Services (Unit {0})
services b = record { has_redis = b; handler = holding; has_agent = true }

abbrev with_bans : JsMap BanEntry → Bans (Unit {0})
with_bans m = record {
  banned = m;
  redis = tt;
  trace = record { stash = none; hooks = []; events = [] };
}

abbrev one_ban : JsMap BanEntry
one_ban = ("a", ban_entry 10 "test" 0) ∷ []

-- Distinct names, and a map of `n` of them from the `i`-th on.
abbrev name : ℕ → String
name zero = "k"
name (suc n) = String.◌∷◌ "k" (name n)

abbrev filled : ℕ → ℕ → JsMap BanEntry
filled zero i = []
filled (suc n) i = (name i, ban_entry 10 "test" 0) ∷ filled n (suc i)

size-filled : (n i : ℕ) → size (filled n i) ≡ n
size-filled zero i = refl
size-filled (suc n) i = ap suc (size-filled n (suc i))

abbrev letters : String → ℕ
letters String.[] = 0
letters (String.◌∷◌ c s) = suc (letters s)

letters-name : (n : ℕ) → letters (name n) ≡ suc n
letters-name zero = refl
letters-name (suc n) = ap suc (letters-name n)

name_lt : (i j : ℕ) → j < i → str_eq (name i) (name j) ≡ false
name_lt i j h =
    let same : name i ≡ name j → letters (name i) ≡ letters (name j) = λ e. ap letters e in
    ground (
      arith,
      Bool-cases (str_eq (name i) (name j)),
      eq_iff (name i) (name j),
      same,
      letters-name i,
      letters-name j,
    )

abbrev first : String → ℕ
first String.[] = 0
first (String.◌∷◌ c s) = code c

first-name : (n : ℕ) → first (name n) ≡ b'k'
first-name zero = refl
first-name (suc n) = refl

name_held : (n : ℕ) → str_eq (name n) "held" ≡ false
name_held n =
    let same : name n ≡ "held" → first (name n) ≡ b'h' = λ e. ap first e in
    ground (arith, Bool-cases (str_eq (name n) "held"), eq_iff (name n) "held", same, first-name n)

get-filled : (n i : ℕ) → get (filled n i) "held" ≡ none
unfolding get
get-filled zero i = refl
get-filled (suc n) i = ground (arith, name_held i, get-filled n (suc i))

has-filled : (n i j : ℕ) → j < i → has (filled n i) (name j) ≡ false
unfolding has
has-filled zero i j h = refl
has-filled (suc n) i j h = ground (arith, name_lt i j h, has-filled n (suc i) j (omega arith))

filled-IsMap : (n i : ℕ) → IsMap (filled n i)
filled-IsMap zero i = tt
filled-IsMap (suc n) i = (has-filled n (suc i) i (omega arith), filled-IsMap n (suc i))

-- A map that is full, with the name 0 as the oldest of its keys.
abbrev full : JsMap BanEntry
full = filled 10000 0

full-size : size full ≡ max_size
unfolding max_size
full-size = size-filled 10000 0

true_ne_false : true ≢ false
true_ne_false = cc

one_ne_zero : ◌≢◌ {A = ℕ} 1 0
one_ne_zero = omega arith

two_ne_one : ◌≢◌ {A = ℕ} 2 1
two_ne_one = omega arith

restored : (is_ip_banned (services true) "held" 50000 (with_bans one_ban)).0 ≡ ok true
unfolding is_ip_banned on_entry ask_redis on_stored get put
restored = refl

write_error_is_passed_on : (ban_ip (services true) "a" 10 "test" 0 (with_bans [])).0 ≡ redis_error
unfolding ban_ip
write_error_is_passed_on = refl

-- Calls that leave the ban of "a" in place: two queries of it, one of an address that Redis restores,
-- and the ban and unban of a third.
abbrev later_calls : List Call
later_calls =
    asks "a" 2000 ∷ asks "held" 3000 ∷ asks "a" 4000 ∷ bans "b" 5 "test" 5000 ∷ unbans "b" ∷ []

held≢a : ◌≢◌ {A = String} "held" "a"
held≢a = ground (arith, eq_iff "held" "a")

b≢a : ◌≢◌ {A = String} "b" "a"
b≢a = ground (arith, eq_iff "b" "a")

calls_spare :
    AllSpare
      (services true)
      "a"
      10000
      (ban_ip (services true) "a" 10 "test" 0 (with_bans [])).1
      later_calls
unfolding step ban_ip is_ip_banned on_entry ask_redis on_stored record_ban make_room max_size get
    put
calls_spare =
    (inr (omega arith), (inl held≢a, (inr (omega arith), ((b≢a, inl (omega arith)), (b≢a, tt)))))

run-is_ip_banned_example :
    (is_ip_banned
      (services true)
      "a"
      9000
      (run (services true) (ban_ip (services true) "a" 10 "test" 0 (with_bans [])).1 later_calls)).0
    ≡ ok true
run-is_ip_banned_example =
    run-is_ip_banned (services true) "a" 10 "test" 0 9000 (with_bans []) later_calls calls_spare
      (omega arith)

is_ip_banned-is_live_example :
    (is_ip_banned (services false) "a" 9000 (with_bans one_ban)).0
    ≡ ok (is_live (services false) 9000 (get one_ban "a"))
is_ip_banned-is_live_example =
    is_ip_banned-is_live (services false) refl "a" 9000 (with_bans one_ban)

abbrev calls : List Call
calls = bans "b" 10 "test" 5 ∷ asks "a" 20000 ∷ unbans "b" ∷ resets ∷ bans "c" 1 "test" 9 ∷ []

run-IsBounded_example : IsBounded (run (services false) (with_bans one_ban) calls).banned
unfolding max_size has
run-IsBounded_example =
    run-IsBounded (services false) refl (with_bans one_ban) calls
      (
        (λ e. true_ne_false (ap (λ t. str_eq t "b") e)),
        (tt, (tt, (tt, ((λ e. true_ne_false (ap (λ t. str_eq t "c") e)), tt)))),
      )
      (record { keys = (refl, tt); named = refl; within = omega arith })
