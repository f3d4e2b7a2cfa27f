-- ===== src/Util/Explained.antt =====
-- Every state of a `NoncriticalLock` of kernel/src/util/noncritical-lock.cpp and its callers that is
-- reached is explained by a token, and its events by a fair lock.
use alux.Prelude.{
  ℕ, ◌≡◌, refl, subst, inl, inr, Bool-cases, Bool, true, false, if◌then◌else◌, Option, none, some,
  List, [], ◌∷◌, LinkedList, occurrences, arith, Option-cases,
}
use alux.Kernel.{Kernel, Garbage}
use alux.Util.FairLock.{Event, FairLock, queues, acquires, releases, serve, replay, idle}
use alux.Util.Lock.{wait, NoncriticalLock, line_up, hand_over, seize, shift_next, finish_seize}
use alux.Util.Callers.{
  outside, waiting, inside, releasing, World, move, after_shift, Reach, start, seizes, enters,
  leaves, grants, wakes, others, history,
}
use alux.Util.Tokens.{
  Token, free, kept, passed, granted, Inv, took-Inv, entered-Inv, freed-Inv, shifted-Inv,
  granted-Inv, woke-Inv, other-Inv, queued_up-Inv,
}

replay-nil : replay [] ≡ some idle
unfolding replay
replay-nil = refl

module _ (L : LinkedList Garbage) (P : LinkedList ℕ) where
  -- What the first section of `Seize` does.
  data Seized (w : World) (c : ℕ) : Kernel × (NoncriticalLock × Bool) → Type 0 where
    takes : w.lock.held ≡ false → Seized w c (w.kernel, (record w.lock { held = true }, true))
    lines :
        w.lock.held ≡ true
        → (th : Option ℕ) (k : Kernel) → Seized w c (k, (line_up P false w.lock c th, false))

  seize-Seized :
      (w : World) (c cpu : ℕ) (initialized : Bool) (k : Kernel) (l : NoncriticalLock) (taken : Bool)
      → seize P false w.kernel w.lock cpu initialized c ≡ some (k, (l, taken))
      → Seized w c (k, (l, taken))
  unfolding seize wait
  seize-Seized w c cpu initialized k l taken q = elim (Bool-cases w.lock.held) [
    | inr h ↦
        subst (Seized w c) {x = (w.kernel, (record w.lock { held = true }, true))}
          {y = (k, (l, taken))} (ground arith) (takes h)
    | inl h ↦ elim (Option-cases (if initialized then w.kernel.current cpu else none)) [
      | inl n ↦
          subst (Seized w c) {x = (k, (line_up P false w.lock c none, false))} {y = (k, (l, taken))}
            (ground arith) (lines h none k)
      | inr (th, n) ↦
          subst (Seized w c) {x = (k, (line_up P false w.lock c (some th), false))}
            {y = (k, (l, taken))} (ground arith) (lines h (some th) k)
    ]
  ]

  finish_seize-owner :
      (k : Kernel) (l : NoncriticalLock) (c : ℕ) {k' : Kernel}
      → finish_seize L k l c ≡ some k'
      → (l.links c).owner ≡ true
  unfolding finish_seize
  finish_seize-owner k l c q = ground arith

  -- What a fair lock has done when the token is with somebody.
  abbrev pub view : Token → List ℕ → FairLock
  view free q = record { holder = none; line = q }
  view (kept c) q = record { holder = some c; line = q }
  view (passed c n) q = record { holder = none; line = n ∷ q }
  view (granted n) q = record { holder = none; line = n ∷ q }

  -- A state of the lock and its callers that some token explains, after some events.
  abbrev pub Explained : World → List Event → Type 0
  Explained w h = (t : Token) × Inv w t × (replay h ≡ some (view t w.lock.queue))

  no_occurrences : (q : List ℕ) → ((c : ℕ) → occurrences c q ≡ 0) → q ≡ []
  unfolding occurrences
  no_occurrences [] h = refl
  no_occurrences (x ∷ xs) h = absurd (ground (arith, h x))

  left-Explained :
      {w : World} (es : List Event) (t : Token) (c : ℕ)
      → Inv w t
      → replay es ≡ some (view t w.lock.queue)
      → w.phases c ≡ inside
      → Explained
          (move
            (record w { lock = (shift_next P w.lock).0 })
            c
            (after_shift (shift_next P w.lock).1))
          (releases c ∷ es)
  unfolding shift_next replay serve
  left-Explained {w} es (kept d) c v f e =
      let same : d ≡ c = ground (arith, v.inside c) in
      let v' : Inv w (kept c) = subst (λ x. Inv w (kept x)) same v in
      let f' : replay es ≡ some (record { holder = some c; line = w.lock.queue }) =
        ground (arith, f, same) in
      go w.lock.queue refl v' f'
    where
      After : NoncriticalLock × Option ℕ → Type 0
      After r = Explained (move (record w { lock = r.0 }) c (after_shift r.1)) (releases c ∷ es)

      go :
          (q : List ℕ)
          → w.lock.queue ≡ q
          → Inv w (kept c)
          → replay es ≡ some (record { holder = some c; line = w.lock.queue })
          → After (shift_next P w.lock)
      go [] h v' f' =
          subst After {x = (record w.lock { held = false }, none)} {y = shift_next P w.lock}
            (ground (arith, h, P.shift-nil)) (free, freed-Inv c v' h, ground (arith, f'))
      go (n ∷ q) h v' f' =
          subst After {x = (record w.lock { queue = q }, some n)} {y = shift_next P w.lock}
            (ground (arith, h, P.shift-cons n q))
            (passed c n, shifted-Inv c n q v' h, ground (arith, f', h))
  left-Explained es free c v f e = absurd (ground (arith, v.inside c))
  left-Explained es (passed d n) c v f e = absurd (ground (arith, v.inside c))
  left-Explained es (granted d) c v f e = absurd (ground (arith, v.inside c))

  taken-Explained :
      {w : World} (es : List Event) (t : Token) (c : ℕ)
      → Inv w t
      → replay es ≡ some (view t w.lock.queue)
      → w.phases c ≡ outside
      → w.lock.held ≡ false
      → Explained
          (move (record w { lock = record w.lock { held = true } }) c inside)
          (acquires c ∷ es)
  unfolding replay serve
  taken-Explained {w} es free c v f e h =
      let none_waits : w.lock.queue ≡ [] = no_occurrences w.lock.queue (λ x. v.empty x refl) in
      (kept c, took-Inv free c v e h, ground (arith, f, none_waits))
  taken-Explained es (kept d) c v f e h = absurd (ground (arith, v.held))
  taken-Explained es (passed d n) c v f e h = absurd (ground (arith, v.held))
  taken-Explained es (granted d) c v f e h = absurd (ground (arith, v.held))

  lined-view :
      {w : World} (es : List Event) (t : Token) (c : ℕ) (th : Option ℕ)
      → Inv w t
      → replay es ≡ some (view t w.lock.queue)
      → w.lock.held ≡ true
      → replay (queues c ∷ es) ≡ some (view t (line_up P false w.lock c th).queue)
  unfolding replay serve line_up
  lined-view {w} es (kept d) c th v f h = rw (P.add-back w.lock.queue c) (ground (arith, f))
  lined-view {w} es (passed d n) c th v f h = rw (P.add-back w.lock.queue c) (ground (arith, f))
  lined-view {w} es (granted d) c th v f h = rw (P.add-back w.lock.queue c) (ground (arith, f))
  lined-view es free c th v f h = absurd (ground (arith, v.held))

  first_section-Explained :
      {w : World} {t : Token} (es : List Event) (c : ℕ) {r : Kernel × (NoncriticalLock × Bool)}
      → Inv w t
      → replay es ≡ some (view t w.lock.queue)
      → w.phases c ≡ outside
      → Seized w c r
      → Explained
          (move (record w { kernel = r.0; lock = r.1.0 }) c (if r.1.1 then inside else waiting))
          ((if r.1.1 then acquires c else queues c) ∷ es)
  first_section-Explained {t = t} es c v f e (takes h) = taken-Explained es t c v f e h
  first_section-Explained {t = t} es c v f e (lines h th k) =
      (t, queued_up-Inv P c th k v e h, lined-view es t c th v f h)

  entered-Explained :
      {w : World} (es : List Event) (t : Token) (c : ℕ) (k : Kernel)
      → Inv w t
      → replay es ≡ some (view t w.lock.queue)
      → w.phases c ≡ waiting
      → (w.lock.links c).owner ≡ true
      → Explained (move (record w { kernel = k }) c inside) (acquires c ∷ es)
  unfolding replay serve
  entered-Explained es (granted d) c k v f e h =
      (kept c, entered-Inv (granted d) c k v e h, ground (arith, f, v.granted c))
  entered-Explained es free c k v f e h = absurd (ground (arith, v.granted c))
  entered-Explained es (kept d) c k v f e h = absurd (ground (arith, v.granted c))
  entered-Explained es (passed d n) c k v f e h = absurd (ground (arith, v.granted c))

  granted-view :
      {w : World} (es : List Event) (t : Token) (c n : ℕ)
      → Inv w t
      → replay es ≡ some (view t w.lock.queue)
      → w.phases c ≡ releasing n
      → replay es ≡ some (view (granted n) (hand_over w.lock n).queue)
  unfolding hand_over
  granted-view es (passed d m) c n v f e = ground (arith, f, v.releasing c)
  granted-view es free c n v f e = absurd (ground (arith, v.releasing c))
  granted-view es (kept d) c n v f e = absurd (ground (arith, v.releasing c))
  granted-view es (granted d) c n v f e = absurd (ground (arith, v.releasing c))

  pub Reach-Explained : {w : World} (r : Reach L P w) → Explained w (history L P r)
  unfolding occurrences history
  Reach-Explained (start k) = (
    free,
    record {
      held = refl;
      inside = λ c. refl;
      releasing = λ c. refl;
      granted = λ c. refl;
      next = λ c h. cc;
      queued = λ c. ground arith;
      empty = λ c h. ground arith;
    },
    replay-nil,
  )
  Reach-Explained (seizes {w} r c cpu init e k l taken q) =
      let (t, v, f) = Reach-Explained r in
      first_section-Explained (history L P r) c v f e (seize-Seized w c cpu init k l taken q)
  Reach-Explained (enters {w} r c e k q) =
      let (t, v, f) = Reach-Explained r in
      entered-Explained (history L P r) t c k v f e (finish_seize-owner w.kernel w.lock c q)
  Reach-Explained (leaves r c e) =
      let (t, v, f) = Reach-Explained r in left-Explained (history L P r) t c v f e
  Reach-Explained (grants r c n e) =
      let (t, v, f) = Reach-Explained r in
      (granted n, granted-Inv t c n v e, granted-view (history L P r) t c n v f e)
  Reach-Explained (wakes r c th e k q) =
      let (t, v, f) = Reach-Explained r in (t, woke-Inv c th k v e, f)
  Reach-Explained (others r k) = let (t, v, f) = Reach-Explained r in (t, other-Inv k v, f)
