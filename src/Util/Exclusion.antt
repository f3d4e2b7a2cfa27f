-- ===== src/Util/Exclusion.antt =====
-- What a `NoncriticalLock` of kernel/src/util/noncritical-lock.cpp promises its callers.
use alux.Prelude.{
  ℕ, ◌⊎◌, ◌≡◌, refl, inl, inr, Bool-cases, Bool, true, false, ◌&&◌, ◌==◌, some, LinkedList,
  occurrences, arith,
}
use alux.Kernel.{Garbage}
use alux.Util.Callers.{Phase, waiting, inside, releasing, World, Reach}
use alux.Util.Explained.{Reach-Explained}
use alux.Util.Tokens.{
  Token, free, kept, passed, granted, is_free, is_inside, is_waiting, releases_to, Inv,
}

kept_once :
    {w : World} (t : Token) (c d : ℕ) → Inv w t → w.phases c ≡ inside → w.phases d ≡ inside → c ≡ d
kept_once (kept x) c d v e e' = ground (arith, v.inside c, v.inside d)
kept_once free c d v e e' = absurd (ground (arith, v.inside c))
kept_once (passed x n) c d v e e' = absurd (ground (arith, v.inside c))
kept_once (granted x) c d v e e' = absurd (ground (arith, v.inside c))

module _ (L : LinkedList Garbage) (P : LinkedList ℕ) where
  -- Mutual exclusion: however the callers of `Seize` and `Release` interleave, with threads or
  -- without, no two of them are between `Seize` and `Release` in a state that is reached.
  pub one_inside :
      {w : World} (c d : ℕ) → Reach L P w → w.phases c ≡ inside → w.phases d ≡ inside → c ≡ d
  one_inside c d r e e' = let (t, v, f) = Reach-Explained L P r in kept_once t c d v e e'

-- A caller that has the lock, that hands it on, or that was given it.
abbrev pub IsBusy : World → ℕ → Type 0
IsBusy w d =
    (w.phases d ≡ inside)
    ⊎ ((n : ℕ) × (w.phases d ≡ releasing n))
    ⊎ (w.phases d ≡ waiting) × ((w.lock.links d).owner ≡ true)

inside_phase : (p : Phase) → is_inside p ≡ true → p ≡ inside
inside_phase p e = ground arith

releasing_phase : (p : Phase) (n : ℕ) → releases_to p ≡ some n → p ≡ releasing n
releasing_phase p n e = ground arith

waiting_phase : (p : Phase) (b : Bool) → is_waiting p && b ≡ true → (p ≡ waiting) × (b ≡ true)
waiting_phase p b e = (ground arith, ground arith)

someone_responsible : {w : World} (t : Token) → Inv w t → is_free t ≡ false → (d : ℕ) × IsBusy w d
someone_responsible free v e = absurd (ground arith)
someone_responsible {w} (kept d) v e =
    (d, inl (inside_phase (w.phases d) (ground (arith, v.inside d))))
someone_responsible {w} (passed d n) v e =
    (d, inr (inl (n, releasing_phase (w.phases d) n (ground (arith, v.releasing d)))))
someone_responsible {w} (granted d) v e =
    (d, inr (inr (waiting_phase (w.phases d) (w.lock.links d).owner (ground (arith, v.granted d)))))

served :
    {w : World} (t : Token) (c : ℕ)
    → Inv w t
    → w.phases c ≡ waiting
    → (w.lock.links c).owner ≡ false
    → ((d : ℕ) × (w.phases d ≡ releasing c))
      ⊎ (occurrences c w.lock.queue ≡ 1) × ((d : ℕ) × IsBusy w d)
served free c v e h = absurd (ground (arith, v.queued c, v.empty c))
served {w} (passed d n) c v e h = elim (Bool-cases (n == c)) [
  | inl s ↦ inl (d, releasing_phase (w.phases d) c (ground (arith, v.releasing d)))
  | inr s ↦ inr (ground (arith, v.queued c), someone_responsible (passed d n) v refl)
]
served (kept d) c v e h = inr (ground (arith, v.queued c), someone_responsible (kept d) v refl)
served (granted d) c v e h =
    inr (ground (arith, v.queued c), someone_responsible (granted d) v refl)

module _ (L : LinkedList Garbage) (P : LinkedList ℕ) where
  -- No waiting caller is forgotten: in a state that is reached, a caller that waits and does not own
  -- the lock yet either is the one to which a `Release` in progress is about to give it, or stands in
  -- the queue exactly once while some caller has the lock, hands it on or was just given it.
  pub not_forgotten :
      {w : World} (c : ℕ)
      → Reach L P w
      → w.phases c ≡ waiting
      → (w.lock.links c).owner ≡ false
      → ((d : ℕ) × (w.phases d ≡ releasing c))
        ⊎ (occurrences c w.lock.queue ≡ 1) × ((d : ℕ) × IsBusy w d)
  not_forgotten c r e h = let (t, v, f) = Reach-Explained L P r in served t c v e h
