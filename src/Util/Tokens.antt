-- ===== src/Util/Tokens.antt =====
-- The states of a `NoncriticalLock` and its callers: one token is passed on, and it says who is where.
use alux.Prelude.{
  ℕ, ◌+◌, ◌≡◌, refl, Bool, true, false, not, ◌&&◌, ◌==◌, if◌then◌else◌, Option, none, some, List,
  [], ◌∷◌, LinkedList, occurrences, occurrences-append, arith,
}
use alux.Kernel.{Kernel}
use alux.Util.Lock.{line_up, hand_over}
use alux.Util.Callers.{Phase, outside, waiting, inside, releasing, waking, World, move}

-- Who is responsible for the lock: nobody, the caller inside, a caller that hands it to another, or
-- one that owns it and has not come back to `Seize` yet.
pub data Token : Type 0 where
  free : Token
  kept : (c : ℕ) → Token
  passed : (c next : ℕ) → Token
  granted : (c : ℕ) → Token

abbrev pub is_free : Token → Bool
is_free free = true
is_free (kept c) = false
is_free (passed c n) = false
is_free (granted c) = false

abbrev pub is_kept : Token → ℕ → Bool
is_kept free x = false
is_kept (kept c) x = c == x
is_kept (passed c n) x = false
is_kept (granted c) x = false

abbrev pub passes_to : Token → ℕ → Option ℕ
passes_to free x = none
passes_to (kept c) x = none
passes_to (passed c n) x = if c == x then some n else none
passes_to (granted c) x = none

abbrev pub is_next : Token → ℕ → Bool
is_next free x = false
is_next (kept c) x = false
is_next (passed c n) x = n == x
is_next (granted c) x = false

abbrev pub is_granted : Token → ℕ → Bool
is_granted free x = false
is_granted (kept c) x = false
is_granted (passed c n) x = false
is_granted (granted c) x = c == x

abbrev pub is_inside : Phase → Bool
is_inside outside = false
is_inside waiting = false
is_inside inside = true
is_inside (releasing n) = false
is_inside (waking th) = false

abbrev pub is_waiting : Phase → Bool
is_waiting outside = false
is_waiting waiting = true
is_waiting inside = false
is_waiting (releasing n) = false
is_waiting (waking th) = false

abbrev pub releases_to : Phase → Option ℕ
releases_to outside = none
releases_to waiting = none
releases_to inside = none
releases_to (releasing n) = some n
releases_to (waking th) = none

-- The phases, the flags and the queue are those of the token.
pub record Inv (w : World) (t : Token) : Type 0 where
  pub held : w.lock.held ≡ not (is_free t)
  pub inside : (c : ℕ) → is_inside (w.phases c) ≡ is_kept t c
  pub releasing : (c : ℕ) → releases_to (w.phases c) ≡ passes_to t c
  pub granted : (c : ℕ) → is_waiting (w.phases c) && (w.lock.links c).owner ≡ is_granted t c
  pub next :
      (c : ℕ) → is_next t c ≡ true → is_waiting (w.phases c) && not (w.lock.links c).owner ≡ true
  pub queued :
      (c : ℕ)
      → occurrences c w.lock.queue ≡ (
          if is_waiting (w.phases c) && (not (w.lock.links c).owner && not (is_next t c))
          then 1
          else 0)
  pub empty : (c : ℕ) → is_free t ≡ true → occurrences c w.lock.queue ≡ 0

-- The world after `Seize` took a lock that was not held.
abbrev pub took : World → ℕ → World
took w c = move (record w { lock = record w.lock { held = true } }) c inside

pub took-Inv :
    {w : World} (t : Token) (c : ℕ)
    → Inv w t
    → w.phases c ≡ outside
    → w.lock.held ≡ false
    → Inv (took w c) (kept c)
took-Inv free c v e h = record {
  held = refl;
  inside = λ x. ground (arith, v.inside x);
  releasing = λ x. ground (arith, v.releasing x);
  granted = λ x. ground (arith, v.granted x);
  next = λ x n. cc;
  queued = λ x. ground (arith, v.queued x);
  empty = λ x n. cc;
}
took-Inv (kept d) c v e h = absurd (ground (arith, v.held))
took-Inv (passed d n) c v e h = absurd (ground (arith, v.held))
took-Inv (granted d) c v e h = absurd (ground (arith, v.held))

module _ (P : LinkedList ℕ) where
  -- The world after `Seize` put the caller in the queue.
  abbrev pub queued_up : World → ℕ → Option ℕ → Kernel → World
  queued_up w c th k = move (record w { kernel = k; lock = line_up P false w.lock c th }) c waiting

  pub queued_up-Inv :
      {w : World} {t : Token} (c : ℕ) (th : Option ℕ) (k : Kernel)
      → Inv w t
      → w.phases c ≡ outside
      → w.lock.held ≡ true
      → Inv (queued_up w c th k) t
  unfolding line_up
  queued_up-Inv {w} {t} c th k v e h = record {
    held = v.held;
    inside = λ x. ground (arith, v.inside x);
    releasing = λ x. ground (arith, v.releasing x);
    granted = λ x. ground (arith, v.granted x, v.granted c);
    next = λ x n. ground (arith, v.next x, v.next c);
    queued = λ x.
        rw (P.add-back w.lock.queue c)
          (ground (arith, occurrences-append c x w.lock.queue, v.queued x, v.queued c, v.next c));
    empty = λ x n. ground (arith, v.held);
  }

-- The world after a caller that owns the lock came back from its wait.
pub entered-Inv :
    {w : World} (t : Token) (c : ℕ) (k : Kernel)
    → Inv w t
    → w.phases c ≡ waiting
    → (w.lock.links c).owner ≡ true
    → Inv (move (record w { kernel = k }) c inside) (kept c)
entered-Inv (granted d) c k v e h = record {
  held = ground (arith, v.held);
  inside = λ x. ground (arith, v.inside x);
  releasing = λ x. ground (arith, v.releasing x);
  granted = λ x. ground (arith, v.granted x, v.granted c);
  next = λ x n. cc;
  queued = λ x. ground (arith, v.queued x);
  empty = λ x n. cc;
}
entered-Inv free c k v e h = absurd (ground (arith, v.granted c))
entered-Inv (kept d) c k v e h = absurd (ground (arith, v.granted c))
entered-Inv (passed d n) c k v e h = absurd (ground (arith, v.granted c))

-- The worlds after the first section of `Release`.
abbrev pub freed : World → ℕ → World
freed w c = move (record w { lock = record w.lock { held = false } }) c outside

abbrev pub shifted : World → ℕ → ℕ → List ℕ → World
shifted w c n q = move (record w { lock = record w.lock { queue = q } }) c (releasing n)

pub freed-Inv : {w : World} (c : ℕ) → Inv w (kept c) → w.lock.queue ≡ [] → Inv (freed w c) free
unfolding occurrences
freed-Inv {w} c v e = record {
  held = refl;
  inside = λ x. ground (arith, v.inside x);
  releasing = λ x. ground (arith, v.releasing x);
  granted = λ x. ground (arith, v.granted x);
  next = λ x n. cc;
  queued = λ x. rw e (let q = rw e at (v.queued x) in ground (arith, q));
  empty = λ x n. rw e refl;
}

pub shifted-Inv :
    {w : World} (c n : ℕ) (q : List ℕ)
    → Inv w (kept c)
    → w.lock.queue ≡ n ∷ q
    → Inv (shifted w c n q) (passed c n)
unfolding occurrences
shifted-Inv {w} c n q v e =
    let front : (x : ℕ) → occurrences x w.lock.queue ≡ (if n == x then 1 else 0) + occurrences x q =
      λ x. rw e (ground arith) in
    record {
      held = v.held;
      inside = λ x. ground (arith, v.inside x, v.inside c);
      releasing = λ x. ground (arith, v.releasing x);
      granted = λ x. ground (arith, v.granted x, v.inside c);
      next = λ x h. ground (arith, v.queued x, v.inside c, front x);
      queued = λ x. ground (arith, v.queued x, v.inside c, front x);
      empty = λ x h. cc;
    }

pub granted-Inv :
    {w : World} (t : Token) (c n : ℕ)
    → Inv w t
    → w.phases c ≡ releasing n
    → Inv
        (move (record w { lock = hand_over w.lock n }) c (waking (w.lock.links n).thread))
        (granted n)
unfolding hand_over
granted-Inv (passed d m) c n v e = record {
  held = v.held;
  inside = λ x. ground (arith, v.inside x);
  releasing = λ x. ground (arith, v.releasing x, v.releasing c);
  granted = λ x. ground (arith, v.granted x, v.next x, v.releasing c, v.releasing x);
  next = λ x h. cc;
  queued = λ x. ground (arith, v.queued x, v.next x, v.releasing c);
  empty = λ x h. cc;
}
granted-Inv free c n v e = absurd (ground (arith, v.releasing c))
granted-Inv (kept d) c n v e = absurd (ground (arith, v.releasing c))
granted-Inv (granted d) c n v e = absurd (ground (arith, v.releasing c))

pub woke-Inv :
    {w : World} {t : Token} (c : ℕ) (th : Option ℕ) (k : Kernel)
    → Inv w t
    → w.phases c ≡ waking th
    → Inv (move (record w { kernel = k }) c outside) t
woke-Inv c th k v e = record {
  held = v.held;
  inside = λ x. ground (arith, v.inside x, v.inside c);
  releasing = λ x. ground (arith, v.releasing x, v.releasing c);
  granted = λ x. ground (arith, v.granted x, v.granted c);
  next = λ x h. ground (arith, v.next x, v.next c);
  queued = λ x. ground (arith, v.queued x);
  empty = v.empty;
}

pub other-Inv : {w : World} {t : Token} (k : Kernel) → Inv w t → Inv (record w { kernel = k }) t
other-Inv k v = record {
  held = v.held;
  inside = v.inside;
  releasing = v.releasing;
  granted = v.granted;
  next = v.next;
  queued = v.queued;
  empty = v.empty;
}
