-- ===== src/ElasticContainer/Evolution.antt =====
-- What most handlers do to the containers: the queues stay, and each object is replaced by one with
-- the same key and with windows that are valid if the old ones were.
use ec_gcm.Common.{
  ℕ, ◌≡◌, refl, sym, ◌∙◌, true, Option, none, some, List, [], ◌∷◌, arith, ◌==◌, All, Bool-cases,
  inl, inr,
}
use mathlib.Core.Path.{subst}
use ec_gcm.Platform.{Net}
use ec_gcm.Stats.Window
use ec_gcm.SubContainer.{ContainerId, SubContainer, same_container}
use ec_gcm.SubContainer.Identity.{same_container_refl, same_container_trans}
use ec_gcm.ElasticContainer.{ElasticContainer, SubcontainerMap, write, store}
use ec_gcm.ElasticContainer.Invariant.{Holds, Entry, IsValid}

-- The windows of a container have their length, so that no insertion leaves the vector.
pub record HasWindows (sc : SubContainer) : Type 0 where
  pub rt_valid : Window.IsValid sc.cpu.rt_winstats
  pub th_valid : Window.IsValid sc.cpu.th_winstats

module _ ⦃net : Net⦄ where
  -- The second object can stand in the place of the first.
  abbrev pub Replaces : SubContainer → SubContainer → Type 0
  Replaces old new = (same_container new.c_id old.c_id ≡ true) × (HasWindows old → HasWindows new)

  pub Replaces-refl : (sc : SubContainer) → Replaces sc sc
  Replaces-refl sc = (same_container_refl sc.c_id, λ w. w)

  pub Replaces-trans : (a b c : SubContainer) → Replaces a b → Replaces b c → Replaces a c
  Replaces-trans a b c f g = (same_container_trans c.c_id b.c_id a.c_id g.0 f.0, λ w. g.1 (f.1 w))

  abbrev pub Cell : Option SubContainer → Option SubContainer → Type 0
  Cell none none = Unit
  Cell (some old) (some new) = Replaces old new
  Cell none (some new) = ⊥
  Cell (some old) none = ⊥

  Cell-refl : (x : Option SubContainer) → Cell x x
  Cell-refl none = tt
  Cell-refl (some sc) = Replaces-refl sc

  Cell-trans : (x y z : Option SubContainer) → Cell x y → Cell y z → Cell x z
  Cell-trans none none none f g = tt
  Cell-trans none none (some c) f g = elim g [ ]
  Cell-trans none (some b) z f g = elim f [ ]
  Cell-trans (some a) none z f g = elim f [ ]
  Cell-trans (some a) (some b) none f g = elim g [ ]
  Cell-trans (some a) (some b) (some c) f g = Replaces-trans a b c f g

  pub record Evolves (ec ec' : ElasticContainer) : Type 0 where
    pub subcontainers_eq : ec'.subcontainers ≡ ec.subcontainers
    pub next_sc_eq : ec'.next_sc ≡ ec.next_sc
    pub cells : (p : ℕ) → Cell (ec.heap p) (ec'.heap p)

  pub Evolves-refl : (ec : ElasticContainer) → Evolves ec ec
  Evolves-refl ec = record {
    subcontainers_eq = refl;
    next_sc_eq = refl;
    cells = λ p. Cell-refl (ec.heap p);
  }

  -- The accounts, the share and the map to clients do not count.
  pub Evolves-congr :
      (ec ec' : ElasticContainer)
      → ec'.subcontainers ≡ ec.subcontainers
      → ec'.next_sc ≡ ec.next_sc
      → ec'.heap ≡ ec.heap
      → Evolves ec ec'
  Evolves-congr ec ec' q n h = record {
    subcontainers_eq = q;
    next_sc_eq = n;
    cells = λ p. rw h (Cell-refl (ec.heap p));
  }

  pub Evolves-trans : (a b c : ElasticContainer) → Evolves a b → Evolves b c → Evolves a c
  Evolves-trans a b c f g = record {
    subcontainers_eq = g.subcontainers_eq ∙ f.subcontainers_eq;
    next_sc_eq = g.next_sc_eq ∙ f.next_sc_eq;
    cells = λ p. Cell-trans (a.heap p) (b.heap p) (c.heap p) (f.cells p) (g.cells p);
  }

  pub store-Evolves :
      (p : ℕ) (old new : SubContainer) (ec : ElasticContainer)
      → ec.heap p ≡ some old
      → Replaces old new
      → Evolves ec (store p new ec)
  store-Evolves p old new ec e r = record {
    subcontainers_eq = refl;
    next_sc_eq = refl;
    cells = λ q. elim (Bool-cases (p == q)) [
      | inl same ↦
          let at : ec.heap q ≡ some old = ground (arith, same, e) in rw (same, write) (rw at r)
      | inr other ↦ rw (other, write) (Cell-refl (ec.heap q))
    ];
  }

  Cell-Holds :
      (id : ContainerId) (x y : Option SubContainer)
      → Cell x y
      → ((sc : SubContainer) × (x ≡ some sc) × (same_container sc.c_id id ≡ true))
      → ((sc : SubContainer) × (y ≡ some sc) × (same_container sc.c_id id ≡ true))
  Cell-Holds id none y c (sc, e, s) = absurd (cc)
  Cell-Holds id (some a) none c _ = elim c [ ]
  Cell-Holds id (some a) (some b) c (sc, e, s) =
      let at : a ≡ sc = cc in (b, refl, same_container_trans b.c_id a.c_id id c.0 (rw at s))

  Holds-Evolves :
      (ec ec' : ElasticContainer) (id : ContainerId) (q : List ℕ)
      → Evolves ec ec'
      → All (Holds ec.heap id) q
      → All (Holds ec'.heap id) q
  Holds-Evolves ec ec' id [] f h = tt
  Holds-Evolves ec ec' id (p ∷ q) f (h, hs) =
      (Cell-Holds id (ec.heap p) (ec'.heap p) (f.cells p) h, Holds-Evolves ec ec' id q f hs)

  pub Entry-Evolves :
      (ec ec' : ElasticContainer) (m : SubcontainerMap)
      → Evolves ec ec'
      → All (Entry ec.heap) m
      → All (Entry ec'.heap) m
  Entry-Evolves ec ec' [] f h = tt
  Entry-Evolves ec ec' ((id, q) ∷ m) f ((ne, hq), hm) =
      ((ne, Holds-Evolves ec ec' id q f hq), Entry-Evolves ec ec' m f hm)

  Cell-none : (x y : Option SubContainer) → Cell x y → x ≡ none → y ≡ none
  Cell-none none none c e = refl
  Cell-none none (some b) c e = elim c [ ]
  Cell-none (some a) none c e = elim c [ ]
  Cell-none (some a) (some b) c e = absurd (cc)

  pub Evolves-IsValid : (ec ec' : ElasticContainer) → Evolves ec ec' → IsValid ec → IsValid ec'
  Evolves-IsValid ec ec' f v = record {
    distinct = rw (f.subcontainers_eq) v.distinct;
    entries = rw (f.subcontainers_eq) (Entry-Evolves ec ec' ec.subcontainers f v.entries);
    once = rw (f.subcontainers_eq) v.once;
    unborn = λ p h.
        Cell-none (ec.heap p) (ec'.heap p) (f.cells p) (v.unborn p (rw (sym f.next_sc_eq) h));
    bounded = λ p h. rw (f.subcontainers_eq) (v.bounded p (rw (sym f.next_sc_eq) h));
  }

  -- The application is valid, and so are the windows of all its containers.
  pub record IsWellFormed (ec : ElasticContainer) : Type 0 where
    pub valid : IsValid ec
    pub windows : (p : ℕ) (sc : SubContainer) → ec.heap p ≡ some sc → HasWindows sc

  Cell-HasWindows :
      (x y : Option SubContainer)
      → Cell x y
      → ((sc : SubContainer) → x ≡ some sc → HasWindows sc)
      → (sc : SubContainer) → y ≡ some sc
      → HasWindows sc
  Cell-HasWindows none none c w sc e = absurd (cc)
  Cell-HasWindows none (some b) c w sc e = elim c [ ]
  Cell-HasWindows (some a) none c w sc e = elim c [ ]
  Cell-HasWindows (some a) (some b) c w sc e =
      let at : b ≡ sc = cc in subst HasWindows at (c.1 (w a refl))

  pub Evolves-IsWellFormed :
      (ec ec' : ElasticContainer) → Evolves ec ec' → IsWellFormed ec → IsWellFormed ec'
  Evolves-IsWellFormed ec ec' f g = record {
    valid = Evolves-IsValid ec ec' f g.valid;
    windows = λ p. Cell-HasWindows (ec.heap p) (ec'.heap p) (f.cells p) (g.windows p);
  }
