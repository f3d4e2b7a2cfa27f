-- ===== src/Scheduler/Notice.antt =====
-- What code does to the list of the collector and to the deadline of its thread.
use alux.Prelude.{◌≡◌, ◌⊎◌, refl, sym, ap, ◌∙◌, inl, inr, List, [], ◌∷◌, ◌++◌, LinkedList, arith}
use mathlib.Core.List.{append_assoc, append-nil}
use alux.Kernel.{Kernel, Garbage}

-- Something may have been put at the back.
pub record Grows (gs hs : List Garbage) : Type 0 where
  pub news : List Garbage
  pub grown : hs ≡ gs ++ news

pub Grows-same : {gs hs : List Garbage} → hs ≡ gs → Grows gs hs
Grows-same {gs} e = record { news = []; grown = e ∙ sym (append-nil gs) }

pub Grows-trans : {gs hs is : List Garbage} → Grows gs hs → Grows hs is → Grows gs is
Grows-trans {gs} s t = record {
  news = s.news ++ t.news;
  grown = t.grown ∙ ap (λ x. x ++ t.news) s.grown ∙ append_assoc gs s.news t.news;
}

pub at_most_one :
    (L : LinkedList Garbage) (o : Garbage) {gs hs : List Garbage}
    → (hs ≡ gs) ⊎ (hs ≡ L.add gs o)
    → Grows gs hs
at_most_one L o (inl e) = Grows-same e
at_most_one L o {gs} (inr e) = record { news = o ∷ []; grown = e ∙ L.add-back gs o }

-- A step after which the collector is due if it was, or if something new is on its list.
pub record Keeps (k k' : Kernel) : Type 0 where
  pub collector : k'.collector_thread ≡ k.collector_thread
  pub due : (k.objs k.collector_thread).deadline ≡ 0 → (k'.objs k.collector_thread).deadline ≡ 0
  pub grows : Grows k.garbage k'.garbage
  pub noticed : (k'.garbage ≡ k.garbage) ⊎ ((k'.objs k.collector_thread).deadline ≡ 0)

pub Keeps-same : (k : Kernel) → Keeps k k
Keeps-same k = record {
  collector = refl;
  due = λ h. h;
  grows = Grows-same refl;
  noticed = inl refl;
}

pub Keeps-trans : {a b c : Kernel} → Keeps a b → Keeps b c → Keeps a c
Keeps-trans s t = record {
  collector = ground (arith, s.collector, t.collector);
  due = λ h. ground (arith, s.due h, t.due, s.collector);
  grows = Grows-trans s.grows t.grows;
  noticed = elim t.noticed [
    | inr e ↦ inr (ground (arith, s.collector))
    | inl e ↦ elim s.noticed [
      | inl e' ↦ inl (ground arith)
      | inr e' ↦ inr (ground (arith, t.due, s.collector))
    ]
  ];
}
