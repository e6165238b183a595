-- ===== src/Session/LoadRecovery/Sizes.antt =====
-- The counters of internal/session/load_recovery.go agree with the buffer that they count, and the
-- buffer is within its cap or a single frame.
use Prim.Native.String.{len}
use ferngeist_acp_gateway.Prelude.{
  ℕ, suc, ◌+◌, ◌≡◌, ◌≢◌, refl, sym, ap, subst, ◌∙◌, Bool, true, Option, none, some, List, [], ◌∷◌,
  ◌++◌, String, by_text, by_number, arith, All, All-append, length, if◌then◌else◌,
}
use ferngeist_acp_gateway.Session.LoadRecovery.{
  HistoryFrame, SessionLog, drop_oldest, appended, append_history, mark_last, history_frame,
  buffer_block,
}
use ferngeist_acp_gateway.Session.LoadRecovery.Trimming.{trim-keeps}

-- The bytes and the user's messages of a history, counted.
unfoldable pub bytes : List HistoryFrame → ℕ
bytes [] = 0
bytes (f ∷ l) = len f.line + bytes l

unfoldable pub users : List HistoryFrame → ℕ
users [] = 0
users (f ∷ l) = let rest = users l in if f.user then suc rest else rest

-- A frame that is a prompt's is the user's.
abbrev pub IsPrompt : HistoryFrame → Type 0
IsPrompt f = f.prompt_id ≢ "" → f.user ≡ true

-- The newest frame is the user's.
abbrev IsUserLast : List HistoryFrame → Type 0
IsUserLast [] = Unit {0}
IsUserLast (f ∷ []) = f.user ≡ true
IsUserLast (f ∷ g ∷ l) = IsUserLast (g ∷ l)

pub record IsCounted (log : SessionLog) : Type 0 where
  pub size : log.hist_size ≡ bytes log.history
  pub counted : log.user_frames ≡ users log.history
  pub prompted : All IsPrompt log.history

bytes-append :
    (l : List HistoryFrame) (f : HistoryFrame) → bytes (l ++ f ∷ []) ≡ bytes l + len f.line
unfolding bytes
bytes-append [] f = omega arith
bytes-append (g ∷ l) f = omega (arith, bytes-append l f)

users-append :
    (l : List HistoryFrame) (f : HistoryFrame)
    → users (l ++ f ∷ []) ≡ (if f.user then suc (users l) else users l)
unfolding users
users-append [] f = ground arith
users-append (g ∷ l) f = ground (arith, users-append l f)

drop_oldest-IsCounted :
    (f : HistoryFrame) (rest : List HistoryFrame) (log : SessionLog)
    → log.history ≡ f ∷ rest
    → IsCounted log
    → IsCounted (drop_oldest f rest log)
unfolding drop_oldest bytes users
drop_oldest-IsCounted f rest log e h =
    let size : log.hist_size ≡ len f.line + bytes rest = h.size ∙ ap bytes e in
    let counted : log.user_frames ≡ (if f.user then suc (users rest) else users rest) =
      h.counted ∙ ap users e in
    record {
      size = omega arith;
      counted = ground arith;
      prompted = (subst (All IsPrompt) e h.prompted).1;
    }

drop_oldest-IsUserLast :
    (f : HistoryFrame) (rest : List HistoryFrame) (log : SessionLog)
    → log.history ≡ f ∷ rest
    → IsUserLast log.history
    → IsUserLast (drop_oldest f rest log).history
unfolding drop_oldest
drop_oldest-IsUserLast f [] log e h = tt
drop_oldest-IsUserLast f (g ∷ rest) log e h = subst IsUserLast e h

pub append_history-IsCounted :
    (line : String) (user : Bool) (seq : ℕ) (log : SessionLog)
    → IsCounted log
    → IsCounted (append_history line user seq log)
unfolding append_history
append_history-IsCounted line user seq log h =
    let f = history_frame line user seq log in
    trim-keeps IsCounted drop_oldest-IsCounted
      (λ l c. record { size = c.size; counted = c.counted; prompted = c.prompted })
      (appended line user seq log)
      (record {
        size = omega (arith, h.size, bytes-append log.history f);
        counted = ground (arith, h.counted, users-append log.history f);
        prompted = All-append IsPrompt log.history (f ∷ []) h.prompted (λ e. absurd (e refl), tt);
      })

IsUserLast-append :
    (l : List HistoryFrame) (f : HistoryFrame) → f.user ≡ true → IsUserLast (l ++ f ∷ [])
IsUserLast-append [] f h = h
IsUserLast-append (g ∷ []) f h = h
IsUserLast-append (g ∷ k ∷ l) f h = IsUserLast-append (k ∷ l) f h

pub bytes-mark_last :
    (prompt_id : String) (l : List HistoryFrame) → bytes (mark_last prompt_id l) ≡ bytes l
unfolding bytes mark_last
bytes-mark_last prompt_id [] = refl
bytes-mark_last prompt_id (f ∷ []) = refl
bytes-mark_last prompt_id (f ∷ g ∷ l) = omega (arith, bytes-mark_last prompt_id (g ∷ l))

users-mark_last :
    (prompt_id : String) (l : List HistoryFrame) → users (mark_last prompt_id l) ≡ users l
unfolding users mark_last
users-mark_last prompt_id [] = refl
users-mark_last prompt_id (f ∷ []) = refl
users-mark_last prompt_id (f ∷ g ∷ l) = ground (arith, users-mark_last prompt_id (g ∷ l))

pub length-mark_last :
    (prompt_id : String) (l : List HistoryFrame) → length (mark_last prompt_id l) ≡ length l
unfolding mark_last
length-mark_last prompt_id [] = refl
length-mark_last prompt_id (f ∷ []) = refl
length-mark_last prompt_id (f ∷ g ∷ l) = ap suc (length-mark_last prompt_id (g ∷ l))

mark_last-IsPrompt :
    (prompt_id : String) (l : List HistoryFrame)
    → IsUserLast l
    → All IsPrompt l
    → All IsPrompt (mark_last prompt_id l)
unfolding mark_last
mark_last-IsPrompt prompt_id [] last a = tt
mark_last-IsPrompt prompt_id (f ∷ []) last a = (λ ne. last, tt)
mark_last-IsPrompt prompt_id (f ∷ g ∷ l) last a =
    (a.0, mark_last-IsPrompt prompt_id (g ∷ l) last a.1)

pub buffer_block-IsCounted :
    (prompt_id : String) (line : Option String) (log : SessionLog)
    → IsCounted log
    → IsCounted (buffer_block prompt_id line log)
unfolding buffer_block
buffer_block-IsCounted prompt_id none log h = h
buffer_block-IsCounted prompt_id (some line) log h =
    let numbered : SessionLog = record log { seq = log.seq + 1 } in
    let added = append_history line true (log.seq + 1) numbered in
    let c =
      append_history-IsCounted line true (log.seq + 1) numbered
        (record { size = h.size; counted = h.counted; prompted = h.prompted }) in
    let last : IsUserLast added.history =
      unfold append_history in
      trim-keeps (λ l. IsUserLast l.history) drop_oldest-IsUserLast (λ l u. u)
        (appended line true (log.seq + 1) numbered)
        (IsUserLast-append log.history (history_frame line true (log.seq + 1) numbered) refl) in
    record {
      size = c.size ∙ sym (bytes-mark_last prompt_id added.history);
      counted = c.counted ∙ sym (users-mark_last prompt_id added.history);
      prompted = mark_last-IsPrompt prompt_id added.history last c.prompted;
    }
