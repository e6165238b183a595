-- ===== src/Turns/Feed/Current.antt =====
-- What the readers of turns/feed.go hold and what waits in their channels make up the last sample:
-- the statement, and that a sample keeps it.
use ferngeist_acp_gateway.Prelude.{
  ℕ, refl, sym, subst, Option, List, by_number, arith, Bool-cases, inl, inr,
}
use ferngeist_acp_gateway.Map.Entries.{find}
use ferngeist_acp_gateway.Turns.Types.{Status, by_key}
use ferngeist_acp_gateway.Turns.Keys.{OneEach}
use ferngeist_acp_gateway.Turns.Diff.{Snapshot, diff_turns}
use ferngeist_acp_gateway.Turns.Feed.{Feed, FeedError, end_sub, is_void, sample}
use ferngeist_acp_gateway.Turns.Feed.Clients.{
  Same, held_by, apply_all, apply-diff, void-Same, Clients,
}
use ferngeist_acp_gateway.Turns.Feed.Publishing.{
  Follows, Waits, Follows-delete, Waits-delete, IsLast, end_sub_cases, end_sub-IsLast, aim_old,
  publish_each-Loop,
}

-- The clients of a feed hold what they were handed, and their channels bring them to the last
-- sample, which has no turn twice.
pub record IsCurrent (held : Clients) (f : Feed) : Type 0 where
  pub unique : OneEach f.last
  pub waits : Waits held f.subs
  pub follows : Follows held (λ id. f.last) f.subs

-- Where the last sample is kept, or nobody reads it.
pub IsCurrent-of :
    (held : Clients) (turns : List Status) (f : Feed)
    → OneEach turns
    → Waits held f.subs
    → Follows held (λ id. turns) f.subs
    → IsLast turns f
    → IsCurrent held f
unfolding OneEach
IsCurrent-of held turns f one w h last = elim last [
  | inl e ↦ record {
    unique = subst OneEach (sym e) one;
    waits = w;
    follows = subst (λ t. Follows held (λ id. t) f.subs) (sym e) h;
  }
  | inr (e, gone) ↦ record {
    unique = subst OneEach (sym e) tt;
    waits = w;
    follows = λ id sub g. absurd (ground (arith, gone id));
  }
]

pub end_sub-IsCurrent :
    (held : Clients) (id : ℕ) (e : Option FeedError) (f : Feed)
    → IsCurrent held f
    → IsCurrent held (end_sub id e f)
end_sub-IsCurrent held id e f h =
    IsCurrent-of held f.last (end_sub id e f) h.unique
      (end_sub_cases (Waits held) id e f h.waits (Waits-delete held id f.subs h.waits))
      (end_sub_cases (Follows held (λ x. f.last)) id e f h.follows
        (Follows-delete held (λ x. f.last) id f.subs h.follows))
      (end_sub-IsLast f.last id e f (inl refl))

-- A sample brings every active subscription up to itself.
pub sample-IsCurrent :
    (held : Clients) (snap : Snapshot) (f : Feed)
    → OneEach snap.turns
    → IsCurrent held f
    → IsCurrent held (sample snap f)
unfolding sample find
sample-IsCurrent held snap f one h =
    let change = diff_turns f.last snap in
    elim (Bool-cases (is_void change)) [
      | inl q ↦ rw q (record {
        unique = one;
        waits = h.waits;
        follows = λ id sub g a.
            void-Same f.last snap (apply_all sub.changes (held id)) one q (h.follows id sub g a);
      })
      | inr q ↦
          let done =
            publish_each-Loop held f.last snap.turns change f.subs.entries _
              (λ m. apply-diff f.last snap m one) f.subs.distinct
              (record {
                follows = λ id sub g a.
                    subst (λ t. Same (apply_all sub.changes (held id)) (held_by t))
                      (sym (aim_old f.last snap.turns f.subs id sub g)) (h.follows id sub g a);
                waits = h.waits;
                last = inl refl;
              }) in
          rw q (IsCurrent-of held snap.turns _ one done.waits done.follows done.last)
    ]
