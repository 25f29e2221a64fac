-- ===== src/Behavior/Usage.antt =====
-- The usage window of a behavior rule (handlers/behavior.ts): it is the window of the rate
-- limiter.
use guard_core_ts.Base.{ℕ, ◌≡◌, sym, ap, ◌∙◌, String, List, [], ltb, length}
use mathlib.Core.Option
use guard_core_ts.JsMap.{JsMap, get}
use guard_core_ts.JsMap.Laws.{get-put_self}
use guard_core_ts.RateLimit.Window.{slide}
use guard_core_ts.RateLimit.Manager.{row, in_memory_request_count}
use guard_core_ts.Behavior.{Usage, Rule, room_for, store_row, local_row, track_endpoint_usage}

-- From equal rows the tracker stores and decides what the in-memory rate limiter does with the window of
-- the rule and its threshold as the limit: it reports a violation exactly where the count exceeds it.
pub track-row :
    (usage : Usage) (endpoint ip : String) (rule : Rule) (now : ℕ) (store : JsMap (List ℕ))
    (key : String)
    → local_row usage endpoint ip ≡ row store key
    → ((track_endpoint_usage usage endpoint ip rule now).0
        ≡ ltb rule.threshold (in_memory_request_count store key now rule.window).1)
      × (local_row (track_endpoint_usage usage endpoint ip rule now).1 endpoint ip
          ≡ row (in_memory_request_count store key now rule.window).0 key)
unfolding track_endpoint_usage in_memory_request_count store_row local_row
track-row usage endpoint ip rule now store key e = (
  ap (λ ts. ltb rule.threshold (length (slide now rule.window ts))) e,
  ap (λ o. Option.get_or (get (Option.get_or o []) ip) [])
        (get-put_self (room_for usage endpoint) endpoint _)
      ∙ ap (λ o. Option.get_or o [])
          (get-put_self (room_for (Option.get_or (get usage endpoint) []) ip) ip _)
      ∙ ap (slide now rule.window) e
      ∙ sym (ap (λ o. Option.get_or o []) (get-put_self store key _)),
)
