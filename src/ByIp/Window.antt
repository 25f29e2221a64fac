-- ===== src/ByIp/Window.antt =====
-- The in-memory window of the primitive against that of the pipeline's manager: the two routines of
-- handlers/rate-limit-by-ip.ts and handlers/rate-limit.ts keep the same list and agree on the verdict.
use guard_core_ts.Base.{
  ℕ, ◌+◌, ◌≡◌, refl, sym, ap, ◌∙◌, String, List, [], ◌∷◌, ◌++◌, arith, length, length-append, ltb,
  leb,
}
use mathlib.Core.Option
use guard_core_ts.JsMap.{JsMap}
use guard_core_ts.JsMap.Laws.{get-put_self}
use guard_core_ts.RateLimit.Window.{in_window, find_index, cut, slide, cut-map-suc}
use guard_core_ts.RateLimit.Manager.{row, in_memory_request_count}
use guard_core_ts.ByIp.{shift_expired, lru_pop_or_create, in_memory_request_count_by_ip, window_key}

-- Shifting expired heads off and splicing at the first live index keep the same list, also where
-- the list is not in order.
shift_expired-cut :
    (now window : ℕ) (ts : List ℕ)
    → shift_expired now window ts ≡ cut (find_index (in_window now window) ts) ts
unfolding shift_expired find_index cut
shift_expired-cut now window [] = refl
shift_expired-cut now window (t ∷ ts) = ground (
  arith,
  cut-map-suc (find_index (in_window now window) ts) t ts,
  shift_expired-cut now window ts,
)

shift_expired-slide :
    (now window : ℕ) (ts : List ℕ) → shift_expired now window ts ++ now ∷ [] ≡ slide now window ts
unfolding slide
shift_expired-slide now window ts = ap (λ xs. xs ++ now ∷ []) (shift_expired-cut now window ts)

module _ (hash : String → String) where
  popped-row :
      (store : JsMap (List ℕ)) (key : String) (max_keys : ℕ)
      → (lru_pop_or_create store key max_keys []).0 ≡ row store key
  unfolding lru_pop_or_create
  popped-row store key max_keys = ground arith

  -- From the same timestamps for their keys, the primitive stores the list that the manager stores,
  -- and counts one less: it counts before it records the hit.
  pub by_ip_agrees :
      (store store' : JsMap (List ℕ)) (ip path key : String) (max_keys now window : ℕ)
      → row store (window_key hash ip path) ≡ row store' key
      → (row
            (in_memory_request_count_by_ip hash store ip path max_keys now window).1
            (window_key hash ip path)
          ≡ row (in_memory_request_count store' key now window).0 key)
        × ((in_memory_request_count_by_ip hash store ip path max_keys now window).0 + 1
            ≡ (in_memory_request_count store' key now window).1)
  unfolding in_memory_request_count_by_ip in_memory_request_count
  by_ip_agrees store store' ip path key max_keys now window e =
      let same =
        ap (λ ts. shift_expired now window ts ++ now ∷ [])
          (popped-row store (window_key hash ip path) max_keys ∙ e)
        ∙ shift_expired-slide now window (row store' key) in
      (
        ap (λ o. Option.get_or o []) (get-put_self _ (window_key hash ip path) _)
            ∙ same
            ∙ sym (ap (λ o. Option.get_or o []) (get-put_self store' key _)),
        sym (length-append (shift_expired now window _) (now ∷ [])) ∙ ap length same,
      )

  -- So the strict comparison of the primitive admits exactly what the manager's comparison admits.
  pub by_ip_verdict :
      (store store' : JsMap (List ℕ)) (ip path key : String) (max_keys now window limit : ℕ)
      → row store (window_key hash ip path) ≡ row store' key
      → ltb (in_memory_request_count_by_ip hash store ip path max_keys now window).0 limit
        ≡ leb (in_memory_request_count store' key now window).1 limit
  by_ip_verdict store store' ip path key max_keys now window limit e =
      ground (arith, (by_ip_agrees store store' ip path key max_keys now window e).1)
