-- ===== src/Session/LoadRecovery/Trimming.antt =====
-- The two loops of `appendHistoryLocked` of internal/session/load_recovery.go, as repeated drops of the
-- oldest frame.
use ferngeist_acp_gateway.Prelude.{
  ◌≤◌, ◌≡◌, refl, Bool, true, not, ◌&&◌, List, [], ◌∷◌, arith, length, ltb, if-cases, inl, inr, ◌⊎◌,
}
use ferngeist_acp_gateway.Session.LoadRecovery.{
  HistoryFrame, SessionLog, max_load_history_bytes, drop_oldest, evict_over, evict_reply, trim,
}

-- What every drop of the oldest frame keeps, the loops keep.
module _ {μ} (P : SessionLog → Type μ)
    (drops : (f : HistoryFrame) (rest : List HistoryFrame) (log : SessionLog)
      → log.history ≡ f ∷ rest
      → P log
      → P (drop_oldest f rest log)) where
  pub evict_over-keeps :
      (l : List HistoryFrame) (log : SessionLog) → log.history ≡ l → P log → P (evict_over l log).0
  unfolding evict_over drop_oldest
  evict_over-keeps [] log e h = h
  evict_over-keeps (f ∷ []) log e h = h
  evict_over-keeps (f ∷ g ∷ rest) log e h =
      if-cases (λ (x : SessionLog × Bool). P x.0) (ltb max_load_history_bytes log.hist_size)
        (λ q.
          evict_over-keeps (g ∷ rest) (drop_oldest f (g ∷ rest) log) refl
            (drops f (g ∷ rest) log e h))
        (λ q. h)

  pub evict_reply-keeps :
      (l : List HistoryFrame) (log : SessionLog) → log.history ≡ l → P log → P (evict_reply l log)
  unfolding evict_reply drop_oldest
  evict_reply-keeps [] log e h = h
  evict_reply-keeps (f ∷ rest) log e h =
      if-cases P (ltb 0 log.user_frames && not f.user)
        (λ q. evict_reply-keeps rest (drop_oldest f rest log) refl (drops f rest log e h)) (λ q. h)

  pub trim-keeps :
      ((log : SessionLog) → P log → P (record log { trimmed = true }))
      → (log : SessionLog) → P log
      → P (trim log)
  unfolding trim
  trim-keeps marks log h =
      let over = evict_over-keeps log.history log refl h in
      if-cases P (evict_over log.history log).1
        (λ q. marks _ (evict_reply-keeps (evict_over log.history log).0.history _ refl over))
        (λ q. over)

-- The first loop ends within the cap, or with a single frame.
abbrev pub IsSmall : SessionLog → Type 0
IsSmall log = (log.hist_size ≤ max_load_history_bytes) ⊎ (length log.history ≤ 1)

evict_over-IsSmall :
    (l : List HistoryFrame) (log : SessionLog) → log.history ≡ l → IsSmall (evict_over l log).0
unfolding evict_over drop_oldest
evict_over-IsSmall [] log e = inr (ground arith)
evict_over-IsSmall (f ∷ []) log e = inr (ground arith)
evict_over-IsSmall (f ∷ g ∷ rest) log e =
    if-cases (λ (x : SessionLog × Bool). IsSmall x.0) (ltb max_load_history_bytes log.hist_size)
      (λ q. evict_over-IsSmall (g ∷ rest) (drop_oldest f (g ∷ rest) log) refl)
      (λ q. inl (ground arith))

drop_oldest-IsSmall :
    (f : HistoryFrame) (rest : List HistoryFrame) (log : SessionLog)
    → log.history ≡ f ∷ rest
    → IsSmall log
    → IsSmall (drop_oldest f rest log)
unfolding drop_oldest
drop_oldest-IsSmall f rest log e (inl small) = inl (omega arith)
drop_oldest-IsSmall f rest log e (inr one) = inr (ground arith)

pub trim-IsSmall : (log : SessionLog) → IsSmall (trim log)
unfolding trim
trim-IsSmall log =
    let over = evict_over-IsSmall log.history log refl in
    if-cases IsSmall (evict_over log.history log).1
      (λ q.
        evict_reply-keeps IsSmall drop_oldest-IsSmall (evict_over log.history log).0.history _ refl
          over)
      (λ q. over)
