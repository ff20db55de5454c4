-- ===== src/IdPool/Counting.antt =====
-- The laws of a pool, inverted for its clients: what a returned value says of the free list.
use warden_linux.Base.{
  ◌+◌, ◌≡◌, refl, ap, true, inl, inr, ◌⊎◌, List, [], ◌∷◌, ok, err, cut, count, count-append,
  count-cut, Option-cases, arith, if◌then◌else◌, Result,
}
use warden_linux.IdPool.{IdPool, IdPoolLaws, IsSound}

List-cases : {A : Type 0} (xs : List A) → (xs ≡ []) ⊎ ((a : A) × (rest : List A) × (xs ≡ a ∷ rest))
List-cases [] = inl refl
List-cases (x ∷ xs) = inr (x, xs, refl)

module _ {S A E : Type 0} (p : IdPool S A E) (laws : IdPoolLaws p) where
  pub acquire_ok : (s : S) (a : A) → (p.acquire s).0 ≡ ok a → p.free s ≡ a ∷ p.free (p.acquire s).1
  acquire_ok s a got = elim (List-cases (p.free s)) [
    | inl none_free ↦
        (let (e, refused) = laws.acquire_empty s none_free in
          cc (ap (λ (r : Result E A × S). r.0) refused))
    | inr (b, rest, first) ↦ (let (got', left) = laws.acquire_first s b rest first in cc)
  ]

  pub acquire_err : (s : S) (e : E) → (p.acquire s).0 ≡ err e → (p.acquire s).1 ≡ s
  acquire_err s e failed = elim (List-cases (p.free s)) [
    | inl none_free ↦
        (let (e', refused) = laws.acquire_empty s none_free in
          ap (λ (r : Result E A × S). r.1) refused)
    | inr (b, rest, first) ↦ (let (got, left) = laws.acquire_first s b rest first in cc)
  ]

  pub acquire-count :
      (s : S) (a b : A)
      → (p.acquire s).0 ≡ ok a
      → count p.same b (p.free s)
        ≡ (if p.same a b then 1 else 0) + count p.same b (p.free (p.acquire s).1)
  acquire-count s a b got = rw (acquire_ok s a got) (ground arith)

  pub remove-count :
      (s : S) (a b : A)
      → (p.remove a s).0 ≡ ok tt
      → count p.same b (p.free s)
        ≡ (if p.same a b then 1 else 0) + count p.same b (p.free (p.remove a s).1)
  remove-count s a b done = elim (Option-cases (cut p.same a (p.free s))) [
    | inl taken ↦
        (let (e, refused) = laws.remove_taken s a taken in
          cc (ap (λ (r : Result E (Unit {0}) × S). r.0) refused))
    | inr (rest, found) ↦
        (let (done', left) = laws.remove_free s a rest found in
          rw left (count-cut p.same laws.same_cong a b (p.free s) rest found))
  ]

  pub remove_err : (s : S) (a : A) (e : E) → (p.remove a s).0 ≡ err e → (p.remove a s).1 ≡ s
  remove_err s a e failed = elim (Option-cases (cut p.same a (p.free s))) [
    | inl taken ↦
        (let (e', refused) = laws.remove_taken s a taken in
          ap (λ (r : Result E (Unit {0}) × S). r.1) refused)
    | inr (rest, found) ↦ (let (done, left) = laws.remove_free s a rest found in cc)
  ]

  pub release-count :
      (s : S) (a b : A)
      → p.owns s a ≡ true
      → count p.same a (p.free s) ≡ 0
      → count p.same b (p.free (p.release a s))
        ≡ (if p.same a b then 1 else 0) + count p.same b (p.free s)
  release-count s a b own out =
      rw (laws.release_owned s a own out)
        (ground (arith, count-append p.same b (p.free s) (a ∷ [])))

  -- What was just acquired can be given back: then everything is free as often as before.
  pub release-acquire :
      (s : S) (a b : A)
      → IsSound p s
      → (p.acquire s).0 ≡ ok a
      → count p.same b (p.free (p.release a (p.acquire s).1)) ≡ count p.same b (p.free s)
  release-acquire s a b sound got = ground (
    arith,
    acquire-count s a a got,
    acquire-count s a b got,
    laws.same_refl a,
    sound.once a,
    sound.in_range a,
    laws.acquire_owns s a,
    release-count (p.acquire s).1 a b,
  )
