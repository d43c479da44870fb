-- ===== src/VectorStore/Index.antt =====
-- What a store holds after points were written, once or again.
use secondbrain_ai.Prelude.{
  ℕ, ◌≡◌, refl, sym, ap, ◌∙◌, ◌⊎◌, inl, inr, true, some, List, [], ◌∷◌, ◌++◌, Bool-cases, ◌==◌,
  if◌then◌else◌, ==_iff,
}
use mathlib.Core.List.{Memᴰ}
use mathlib.Core.List.Memᴰ
use secondbrain_ai.Indexing.Vectors.{VectorRecord}
use secondbrain_ai.VectorStore.{PointIndex, put_point, overlay, OneOf}

pub overlay-append :
    (xs ys : List VectorRecord) (m : PointIndex) → overlay (xs ++ ys) m ≡ overlay ys (overlay xs m)
overlay-append [] ys m = refl
overlay-append (x ∷ xs) ys m = overlay-append xs ys (put_point x m)

-- The points under an identifier depend only on what was under it.
overlay_local :
    (ps : List VectorRecord) (m n : PointIndex) (i : ℕ)
    → m i ≡ n i
    → overlay ps m i ≡ overlay ps n i
overlay_local [] m n i h = h
overlay_local (p ∷ ps) m n i h =
    overlay_local ps (put_point p m) (put_point p n) i (ap (λ o. if p.id == i then some p else o) h)

-- A written identifier no longer depends on what was under it.
overlay_written :
    (ps : List VectorRecord) (m n : PointIndex) (p : VectorRecord) (i : ℕ)
    → Memᴰ p ps
    → p.id ≡ i
    → overlay ps m i ≡ overlay ps n i
overlay_written [] m n p i k e = elim k [ ]
overlay_written (x ∷ ps) m n p i (Memᴰ.head same) e =
    let hit : (x.id == i) ≡ true =
      (==_iff x.id i).1 (ap (λ (y : VectorRecord). y.id) (sym same) ∙ e) in
    overlay_local ps (put_point x m) (put_point x n) i (rw hit refl)
overlay_written (x ∷ ps) m n p i (Memᴰ.tail k) e =
    overlay_written ps (put_point x m) (put_point x n) p i k e

-- The state after a call that raised: as before, or with some of its points.
abbrev pub Partly : List VectorRecord → PointIndex → PointIndex → ℕ → Type 0
Partly ps m n i = (n i ≡ m i) ⊎ OneOf ps i (n i)

-- Written again, the points hide what a call that raised has left.
pub overlay_again :
    (ps : List VectorRecord) (m n : PointIndex) (i : ℕ)
    → Partly ps m n i
    → overlay ps n i ≡ overlay ps m i
overlay_again ps m n i (inl same) = overlay_local ps n m i same
overlay_again ps m n i (inr (p, k, e, here)) = overlay_written ps n m p i k e

pub overlay-Partly :
    (ps : List VectorRecord) (m : PointIndex) (i : ℕ) → Partly ps m (overlay ps m) i
overlay-Partly [] m i = inl refl
overlay-Partly (p ∷ ps) m i = later (overlay-Partly ps (put_point p m) i)
  where
    later :
        Partly ps (put_point p m) (overlay ps (put_point p m)) i
        → Partly (p ∷ ps) m (overlay ps (put_point p m)) i
    later (inr (x, k, e, here)) = inr (x, Memᴰ.tail k, e, here)
    later (inl same) = elim (Bool-cases (p.id == i)) [
      | inl hit ↦ inr (p, Memᴰ.head refl, (==_iff p.id i).0 hit, same ∙ rw hit refl)
      | inr miss ↦ inl (same ∙ rw miss refl)
    ]

pub Partly-trans :
    (ps : List VectorRecord) (l m n : PointIndex) (i : ℕ)
    → Partly ps l m i
    → Partly ps m n i
    → Partly ps l n i
Partly-trans ps l m n i h (inr new) = inr new
Partly-trans ps l m n i (inl old) (inl same) = inl (same ∙ old)
Partly-trans ps l m n i (inr (p, k, e, here)) (inl same) = inr (p, k, e, same ∙ here)

pub Partly-append :
    (ps qs : List VectorRecord) (m n : PointIndex) (i : ℕ)
    → Partly qs (overlay ps m) n i
    → Partly (ps ++ qs) m n i
Partly-append ps qs m n i (inr (p, k, e, here)) = inr (p, Memᴰ.append_right ps k, e, here)
Partly-append ps qs m n i (inl same) = earlier (overlay-Partly ps m i)
  where
    earlier : Partly ps m (overlay ps m) i → Partly (ps ++ qs) m n i
    earlier (inl old) = inl (same ∙ old)
    earlier (inr (p, k, e, here)) = inr (p, Memᴰ.append_left qs k, e, same ∙ here)

pub Partly-more :
    (ps qs : List VectorRecord) (m n : PointIndex) (i : ℕ)
    → Partly ps m n i
    → Partly (ps ++ qs) m n i
Partly-more ps qs m n i (inl same) = inl same
Partly-more ps qs m n i (inr (p, k, e, here)) = inr (p, Memᴰ.append_left qs k, e, here)
