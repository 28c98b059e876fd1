-- ===== src/Slab/Return.antt =====
-- `slab_free` of kernel/src/mm/slab.c for a slab that has free objects already.
use aphrodite.Base.{
  ℕ, suc, ◌+◌, ◌*◌, ◌^◌, ◌≡◌, ◌∙◌, ◌<◌, refl, ap, sym, arith, true, false, none, some, List, [],
  ◌∷◌, length, ok, u32, sub32, ◌==◌, if◌then◌else◌, Bool-cases, inl, inr,
}
use mathlib.Core.Path.{subst}
use aphrodite.Base.Distinct.{NotIn}
use aphrodite.Slab.{
  Slab, SlabAllocator, find_slab, remove_slab, replace_slab, put_object, free_listed, slab_free,
}
use aphrodite.Slab.Chain.{IsSlab, Fits, put_object-IsSlab, put_object-page, length-IsSlab}
use aphrodite.Slab.Pool.{Open, Pool, total, has_page, find_open, drop_open, push_open}
use aphrodite.Slab.Refine.{AreOpen, Keeps}
use aphrodite.Slab.Free.{index_of_object, full-missing}

module _ (n page : ℕ) where
  here :
      (p k j : ℕ) (more free : List ℕ) (os : List Open)
      → (p == page) ≡ true
      → find_open page ((p, k, more) ∷ os) ≡ some (j, free)
      → (k ∷ more) ≡ (j ∷ free)
  unfolding find_open
  here p k j more free os same found =
      let both : ◌≡◌ {A = ℕ × List ℕ} (k, more) (j, free) = ground arith in ap (λ r. r.0 ∷ r.1) both

  open-found :
      (slabs : List Slab) (os : List Open) (j : ℕ) (free : List ℕ)
      → AreOpen n slabs os
      → find_open page os ≡ some (j, free)
      → (s : Slab) × (find_slab page slabs ≡ some s) × (s.page ≡ page) × IsSlab n (j ∷ free) s
  unfolding AreOpen find_open find_slab
  open-found [] [] j free h found = cc
  open-found [] (o ∷ os) j free h found = absurd h
  open-found (s ∷ slabs) [] j free h found = absurd h
  open-found (s ∷ slabs) ((p, k, more) ∷ os) j free (e, t, h) found =
      elim (Bool-cases (p == page)) [
        | inl same ↦ (
          s,
          rw (e, same) refl,
          ground arith,
          subst (λ l. IsSlab n l s) (here p k j more free os same found) t,
        )
        | inr other ↦
            let (s', f, q, t') = open-found slabs os j free h (ground arith) in
            (s', rw (e, other) f, q, t')
      ]

  remove_slab-AreOpen :
      (slabs : List Slab) (os : List Open)
      → AreOpen n slabs os
      → AreOpen n (remove_slab page slabs) (drop_open page os)
  unfolding AreOpen remove_slab drop_open
  remove_slab-AreOpen [] [] h = tt
  remove_slab-AreOpen [] (o ∷ os) h = absurd h
  remove_slab-AreOpen (s ∷ slabs) [] h = absurd h
  remove_slab-AreOpen (s ∷ slabs) ((p, k, more) ∷ os) (e, t, h) =
      let test : (s.page == page) ≡ (p == page) = ap (λ q. q == page) e in
      elim (Bool-cases (p == page)) [
        | inl same ↦ rw (test ∙ same, same) h
        | inr other ↦ rw (test ∙ other, other) (e, t, remove_slab-AreOpen slabs os h)
      ]

  replace_slab-AreOpen :
      (slabs : List Slab) (os : List Open) (new : Slab) (i j : ℕ) (free : List ℕ)
      → AreOpen n slabs os
      → find_open page os ≡ some (j, free)
      → new.page ≡ page
      → IsSlab n (i ∷ j ∷ free) new
      → AreOpen n (replace_slab new slabs) (push_open page i os)
  unfolding AreOpen replace_slab push_open find_open
  replace_slab-AreOpen [] [] new i j free h found q t' = tt
  replace_slab-AreOpen [] (o ∷ os) new i j free h found q t' = absurd h
  replace_slab-AreOpen (s ∷ slabs) [] new i j free h found q t' = absurd h
  replace_slab-AreOpen (s ∷ slabs) ((p, k, more) ∷ os) new i j free (e, t, h) found q t' =
      let test : (s.page == new.page) ≡ (p == page) =
        ap (λ r. r == new.page) e ∙ ap (λ r. p == r) q in
      elim (Bool-cases (p == page)) [
        | inl same ↦
            rw (test ∙ same, same)
              (
                ground arith,
                subst (λ l. IsSlab n (i ∷ l) new) (sym (here p k j more free os same found)) t',
                h,
              )
        | inr other ↦
            rw (test ∙ other, other)
              (e, t, replace_slab-AreOpen slabs os new i j free h (ground arith) q t')
      ]

  total-drop_open :
      (os : List Open) (j : ℕ) (free : List ℕ)
      → find_open page os ≡ some (j, free)
      → total (drop_open page os) + suc (length free) ≡ total os
  unfolding total drop_open find_open
  total-drop_open [] j free found = cc
  total-drop_open ((p, k, more) ∷ os) j free found = ground (arith, total-drop_open os j free)

  length-drop_open :
      (os : List Open) (j : ℕ) (free : List ℕ)
      → find_open page os ≡ some (j, free)
      → suc (length (drop_open page os)) ≡ length os
  unfolding drop_open find_open
  length-drop_open [] j free found = cc
  length-drop_open ((p, k, more) ∷ os) j free found = ground (arith, length-drop_open os j free)

  total-push_open :
      (os : List Open) (i j : ℕ) (free : List ℕ)
      → find_open page os ≡ some (j, free)
      → total (push_open page i os) ≡ suc (total os)
  unfolding total push_open find_open
  total-push_open [] i j free found = cc
  total-push_open ((p, k, more) ∷ os) i j free found = ground (arith, total-push_open os i j free)

  length-push_open : (os : List Open) (i : ℕ) → length (push_open page i os) ≡ length os
  unfolding push_open
  length-push_open [] i = refl
  length-push_open ((p, k, more) ∷ os) i = ground (arith, length-push_open os i)

-- The two results of `free_listed`, and which of them it is.
abbrev emptied : SlabAllocator → Slab → SlabAllocator
emptied a s = record a {
  free_obj_count = sub32 (u32 (a.free_obj_count + 1)) a.object_count_per_slab;
  slab_count = sub32 a.slab_count 1;
  free_slab_head_list = remove_slab s.page a.free_slab_head_list;
}

abbrev pushed : SlabAllocator → Slab → ℕ → SlabAllocator
pushed a s i = record a {
  free_obj_count = u32 (a.free_obj_count + 1);
  free_slab_head_list = replace_slab (put_object s i) a.free_slab_head_list;
}

free_listed-eq :
    (a : SlabAllocator) (s : Slab) (i k : ℕ)
    → s.free_obj_count ≡ suc k
    → suc (suc k) < 2 ^ 32
    → free_listed a s i ≡ (
        if suc (suc k) == a.object_count_per_slab
        then ok (emptied a s, some s.page)
        else ok (pushed a s i, none))
unfolding free_listed
free_listed-eq a s i k e small =
    let count : u32 (s.free_obj_count + 1) ≡ suc (suc k) = omega (arith, e) in
    let several : (suc (suc k) == 1) ≡ false = ground arith in rw (free_listed, count, several) refl

slab_free-found :
    (a : SlabAllocator) (page i : ℕ) (s : Slab)
    → Fits a.object_count_per_slab a.object_size
    → find_slab page a.full_slabs ≡ none
    → find_slab page a.free_slab_head_list ≡ some s
    → slab_free a page (i * a.object_size) ≡ free_listed a s i
unfolding slab_free
slab_free-found a page i s f missing at = rw (index_of_object a i f.some_size, missing, at) refl

-- An object that is not free, of a slab that has other free objects: `slab_free` succeeds. If all
-- objects of the slab are free now, the slab is gone and its page is given back; otherwise no
-- page is, and the object is the slab's first free one.
pub slab_free-listed :
    (a : SlabAllocator) (v : Pool) (page i j : ℕ) (free : List ℕ)
    → Keeps a v
    → has_page page v.full ≡ false
    → find_open page v.open_slabs ≡ some (j, free)
    → NotIn i (j ∷ free)
    → i < a.object_count_per_slab
    → let last = suc (suc (length free)) == a.object_count_per_slab in
      (a' : SlabAllocator) × (slab_free a page (i * a.object_size)
        ≡ ok (a', (if last then some page else none)))
      × Keeps a' (record {
        open_slabs = if last then drop_open page v.open_slabs else push_open page i v.open_slabs;
        full = v.full;
      })
unfolding slab_free
slab_free-listed a v page i j free k outside found out small =
    let n = a.object_count_per_slab in
    let (s, at, p, t) =
      open-found n page a.free_slab_head_list v.open_slabs j free k.listed found in
    let put = put_object-IsSlab a s i (j ∷ free) k.fits small out t in
    let most = length-IsSlab n (i ∷ j ∷ free) (put_object s i) put in
    let counted = k.free_objects in
    let slabs = k.slabs in
    let freed =
      slab_free-found a page i s k.fits (full-missing n page a.full_slabs v.full k.unlisted outside)
        at in
    let split =
      free_listed-eq a s i (length free) t.counted (omega (arith, most, k.fits.count_word)) in
    elim (Bool-cases (suc (suc (length free)) == n)) [
      | inl last ↦ rw last (
        emptied a s,
        freed ∙ split ∙ rw (last, p) refl,
        record {
          fits = k.fits;
          listed = rw p (remove_slab-AreOpen n page a.free_slab_head_list v.open_slabs k.listed);
          unlisted = k.unlisted;
          free_objects = ground (arith, total-drop_open n page v.open_slabs j free found);
          slabs = omega (arith, length-drop_open n page v.open_slabs j free found);
        },
      )
      | inr more ↦ rw more (
        pushed a s i,
        freed ∙ split ∙ rw more refl,
        record {
          fits = k.fits;
          listed =
              replace_slab-AreOpen n page a.free_slab_head_list v.open_slabs (put_object s i) i j
                free k.listed found (put_object-page s i ∙ p) put;
          unlisted = k.unlisted;
          free_objects = omega (arith, total-push_open n page v.open_slabs i j free found);
          slabs = omega (arith, length-push_open n page v.open_slabs i);
        },
      )
    ]
