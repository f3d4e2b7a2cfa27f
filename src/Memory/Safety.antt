-- ===== src/Memory/Safety.antt =====
-- Steps of the whole machine, with the page faults of kernel/src/memory/page-fault.cpp.
use alux.Prelude.{
  List, ◌∷◌, Returns-both, Returns-result, ℕ, ◌≡◌, refl, inl, inr, Bool, true, false, Bool-cases,
  ◌==◌, Option, none, some, update, [], LinkedList, IdMap, Returns, Returns->>=, arith, ◌>>=◌,
}
use alux.Arch.Program.{ExecutableMap}
use alux.Kernel.{Garbage}
use alux.Memory.PageFault.{Outcome, answer, inside, handle_page_fault}
use alux.Memory.System.{World, Occurrence, happens, faults, answer_of, map_of, perform, play}
use alux.Scheduler.Sound.{IsRunning, running_thread}
use alux.Syscalls.Harmless.{IsHarmless, turned_away-IsHarmless, returns-IsHarmless}
use alux.Syscalls.Requests.{IsOrderly, May}
use alux.Syscalls.Results.{empty}
use alux.Syscalls.Safety.{event-IsOrderly, after-IsOrderly}
use alux.Syscalls.System as calls
use alux.Syscalls.System.{after}
use alux.Tasks.HoldScope.{Cpu, Entry, entered, exited, construct}
use alux.Tasks.Inside.{IsCalling, Starts, construct-Starts}
use alux.Tasks.Settled.{settled-IsCalling}
use alux.Tasks.Steady.{Orderly-same}

module _ (E : ExecutableMap) where
  open E use {Map}

  abbrev pub IsMapReady : Option Map → Type 0
  IsMapReady none = Unit
  IsMapReady (some m) = E.IsReady m

  -- The invariant of the CPUs, with programs that are ready.
  pub record IsWhole (w : World E) : Type 0 where
    pub orderly : IsOrderly w.machine
    pub ready : (task : ℕ) → IsMapReady (w.maps task)

  -- The address belongs to the program of the map.
  abbrev pub IsWithin : Option Map → ℕ → Type 0
  IsWithin none addr = ⊥
  IsWithin (some m) addr = E.Belongs (E.get_executable m) addr

  -- A thread of a user task has a fault within its program, and there is a page to give.
  pub record MayFault (w : World E) (cpu addr : ℕ) (page : Option ℕ) : Type 0 where
    pub running : IsRunning (w.machine.activity cpu)
    pub within :
        (th : ℕ)
        → w.machine.kernel.current cpu ≡ some th
        → IsWithin (w.maps (w.machine.kernel.threads th).task) addr
    pub frame : ℕ
    pub given : page ≡ some frame

  abbrev pub MayOccur : IdMap → World E → Occurrence → Type 0
  MayOccur M w (happens e) = May M w.machine e
  MayOccur M w (faults cpu now addr write page) = MayFault w cpu addr page

module _ (E : ExecutableMap) (L : LinkedList Garbage) where
  open E use {Map}

  abbrev IsFine : Cpu → ℕ → Option Map → Cpu × Option (Outcome E) → Type 0
  IsFine s th m r = IsHarmless s th false (answer_of E r) × IsMapReady E (map_of E m r)

  handled_inside :
      (m : Map) (addr : ℕ) (write : Bool) (page : ℕ)
      → E.IsReady m
      → E.Belongs (E.get_executable m) addr
      → Returns (E.handle_page_fault m addr write (some page) >>= answer E) (λ r. E.IsReady r.0)
  unfolding answer
  handled_inside m addr write page v b =
      Returns->>= _ (λ r. E.IsReady r.0) (E.handle_page_fault m addr write (some page)) _
        (E.handled m addr write page v)
        (λ (m', handled, calls) w. elim w.2 [
          | inl (h, _) ↦ rw h w.0
          | inr (_, n, _) ↦ absurd (n b)
        ])

  -- In its scope a page fault does no harm.
  fault-IsFine :
      (s : Cpu) (th : ℕ) (o : Option Map) (addr : ℕ) (write : Bool) (page : ℕ)
      → s.critical ≡ true
      → IsCalling s.kernel th
      → IsMapReady E o
      → IsWithin E o addr
      → Returns (handle_page_fault E L s (some th) o addr write (some page)) (IsFine s th o)
  unfolding handle_page_fault inside
  fault-IsFine s th none addr write page crit v r b = elim b [ ]
  fault-IsFine s th (some m) addr write page crit v r b =
      Returns->>= (Starts s th) (IsFine s th (some m)) (construct s (some th)) _
        (construct-Starts s th v) left
    where
      body : Option (Outcome E)
      body = E.handle_page_fault m addr write (some page) >>= answer E

      left : (e : Entry) → Starts s th e → Returns (inside E L body e) (IsFine s th (some m))
      left (exited s') w = (turned_away-IsHarmless s th false s' crit v w, r)
      left (entered scope s') w =
          Returns->>= (λ q. E.IsReady q.0) (IsFine s th (some m)) body _
            (handled_inside m addr write page r b)
            (λ q ready. (
              returns-IsHarmless L s th false scope s' s'.kernel (empty, []) crit w
                  (rw w.kernel (Orderly-same _)),
              ready,
            ))

module _ (E : ExecutableMap) (L : LinkedList Garbage) (P : LinkedList ℕ) (M : IdMap)
    (scale : ℕ → ℕ) where
  open E use {Map}

  pub updated-IsMapReady :
      (maps : ℕ → Option Map) (task : ℕ) (o : Option Map)
      → ((i : ℕ) → IsMapReady E (maps i))
      → IsMapReady E o
      → (i : ℕ) → IsMapReady E (update maps task o i)
  updated-IsMapReady maps task o v h i = elim (Bool-cases (task == i)) [
    | inl e ↦ let mine : update maps task o i ≡ o = ground arith in rw mine h
    | inr e ↦ let theirs : update maps task o i ≡ maps i = ground arith in rw theirs (v i)
  ]

  -- No step of the CPUs, the threads and the programs on them that may happen fails an assertion, and
  -- no page fault makes the kernel panic. The invariant is that of the CPUs with their system calls,
  -- and that the map of every user task is ready. Take any step of a CPU itself, any system call or any
  -- end of a sleep, under the conditions that each has, or a page fault of the thread that a CPU runs at
  -- an address of the program of its task, with a page to give: it returns, and keeps the invariant,
  -- whether or not the task has been killed.
  pub occur-IsWhole :
      (w : World E) (o : Occurrence)
      → IsWhole E w
      → MayOccur E M w o
      → Returns (perform E L P M scale w o) (IsWhole E)
  occur-IsWhole w (happens e) v h =
      Returns->>= IsOrderly (IsWhole E) (calls.perform L P M scale w.machine e) _
        (event-IsOrderly L P M scale w.machine e v.orderly h)
        (λ m q. record { orderly = q; ready = v.ready })
  occur-IsWhole w (faults cpu now addr write page) v h =
      let k = w.machine.kernel in
      let (th, e) = running_thread w.machine cpu v.orderly.sound h.running in
      let task = (k.threads th).task in
      let calling =
        settled-IsCalling k cpu th v.orderly.sound.scheduler v.orderly.calm.0 (v.orderly.calm.1 cpu)
          e in
      let s : Cpu = record { kernel = k; critical = true } in
      rw (e, h.given)
        (Returns->>= (IsFine E L s th (w.maps task)) (IsWhole E)
          (handle_page_fault E L s (some th) (w.maps task) addr write (some h.frame)) _
          (fault-IsFine E L s th (w.maps task) addr write h.frame refl calling (v.ready task)
            (h.within th e))
          (λ r f.
            Returns->>= IsOrderly (IsWhole E) (after L P scale w.machine cpu now (answer_of E r)) _
              (after-IsOrderly L P scale w.machine cpu now th false (answer_of E r) v.orderly e f.0)
              (λ m q. record {
                orderly = q;
                ready = updated-IsMapReady w.maps task (map_of E (w.maps task) r) v.ready f.1;
              })))

  -- Each of these may happen when its turn comes.
  abbrev pub Permits : World E → List Occurrence → Type 0
  Permits w [] = Unit
  Permits w (o ∷ os) =
      MayOccur E M w o × ((w' : World E) → perform E L P M scale w o ≡ some w' → Permits w' os)

  -- So does every sequence of such things.
  pub play-IsWhole :
      (w : World E) (os : List Occurrence)
      → IsWhole E w
      → Permits w os
      → Returns (play E L P M scale w os) (IsWhole E)
  unfolding play
  play-IsWhole w [] v h = v
  play-IsWhole w (o ∷ os) v h =
      let next = perform E L P M scale w o in
      let r = occur-IsWhole w o v h.0 in
      Returns->>= (λ w'. IsWhole E w' × (next ≡ some w')) (IsWhole E) next _
        (Returns-both (IsWhole E) (λ w'. next ≡ some w') next r
          (Returns-result (IsWhole E) (λ w'. next ≡ some w') next r (λ w' q. q)))
        (λ w' q. play-IsWhole w' os q.0 (h.1 w' q.1))
