-- ===== src/Ipc/Result/Each.antt =====
-- The lists of src/ipc/protocol.cpp: elements pushed one by one on an array and read in a loop.
use Prim.Native.String.{String}
use text.Mathlib.Text.{◌==◌ as str_eq}
use text.Mathlib.TextPositions.{eq_refl}
use mathlib.Core.List.{append-nil, append_assoc}
use caudio.Prelude.{
  ◌≡◌, refl, sym, ap, ◌∙◌, List, [], ◌∷◌, ◌++◌, none, some, Expected, ok, unexpected,
  Expected-cases, ◌>>=◌, Bool-cases, inl, inr, arith,
}
use caudio.Json.{
  Json, Items, Fields, nil, cons, end, field, array, object, find, insert, lookup, put, push_back,
  pushed, snoc, thrown,
}

module _ {ℓ} {F : Type 0} {A : Type ℓ} where
  -- `for (const auto& x : xs) j[k].push_back(write(x));`
  unfoldable pub push_each : (A → Expected (Json F)) → String → List A → Json F → Expected (Json F)
  push_each write k [] j = ok j
  push_each write k (x ∷ xs) j = do v ← write x; j' ← push_back k v j; push_each write k xs j'

  -- The loop that converts the elements in turn, up to the first that fails.
  unfoldable pub read_each : (Json F → Expected A) → Items F → Expected (List A)
  read_each get nil = ok []
  read_each get (cons v vs) = do x ← get v; xs ← read_each get vs; ok (x ∷ xs)

  unfoldable pub each_of : (Json F → Expected A) → Json F → Expected (List A)
  unfolding read_each
  each_of get (array vs) = read_each get vs
  each_of get other = thrown "json: array index out of range"

module _ {F : Type 0} where
  -- The fields of an object, and one more behind them.
  abbrev pub behind : Fields F → Fields F → Fields F
  behind end gs = gs
  behind (field k v fs) gs = field k v (behind fs gs)

  find-behind :
      (k : String) (v : Json F) (fs : Fields F)
      → find k fs ≡ none
      → find k (behind fs (field k v end)) ≡ some v
  unfolding find
  find-behind k v end h = rw (eq_refl k) refl
  find-behind k v (field j w fs) h = elim (Bool-cases (str_eq j k)) [
    | inl same ↦ (let no : some w ≡ none = rw same at h in cc)
    | inr other ↦ rw other (find-behind k v fs (rw other at h))
  ]

  insert-behind :
      (k : String) (v w : Json F) (fs : Fields F)
      → find k fs ≡ none
      → insert k w (behind fs (field k v end)) ≡ behind fs (field k w end)
  unfolding find insert
  insert-behind k v w end h = rw (eq_refl k) refl
  insert-behind k v w (field j u fs) h = elim (Bool-cases (str_eq j k)) [
    | inl same ↦ (let no : some u ≡ none = rw same at h in cc)
    | inr other ↦
        rw other (ap (λ (gs : Fields F). field j u gs) (insert-behind k v w fs (rw other at h)))
  ]

  push_back-behind :
      (k : String) (v : Json F) (vs : Items F) (fs : Fields F)
      → find k fs ≡ none
      → push_back k v (object (behind fs (field k (array vs) end)))
        ≡ ok (object (behind fs (field k (array (snoc vs v)) end)))
  unfolding push_back lookup put pushed
  push_back-behind k v vs fs h =
      ground
        (arith, find-behind k (array vs) fs h, insert-behind k (array vs) (array (snoc vs v)) fs h)

module _ {ℓ} {F : Type 0} {A : Type ℓ} where
  -- The elements of a list as they are pushed.
  unfoldable pub written_each : (A → Expected (Json F)) → List A → Items F → Expected (Items F)
  written_each write [] vs = ok vs
  written_each write (x ∷ xs) vs = do v ← write x; written_each write xs (snoc vs v)

  -- A loop of pushes on a new array at a key that comes after the others.
  pub push_each-behind :
      (write : A → Expected (Json F)) (k : String) (xs : List A) (vs : Items F) (fs : Fields F)
      → find k fs ≡ none
      → push_each write k xs (object (behind fs (field k (array vs) end)))
        ≡ (written_each write xs vs >>= λ ws. ok (object (behind fs (field k (array ws) end))))
  unfolding push_each written_each
  push_each-behind write k [] vs fs h = refl
  push_each-behind write k (x ∷ xs) vs fs h = elim (Expected-cases (write x)) [
    | inl (v, e) ↦
        rw (e, push_back-behind k v vs fs h) (push_each-behind write k xs (snoc vs v) fs h)
    | inr (e, f) ↦ rw f refl
  ]

  read_each-snoc :
      (get : Json F → Expected A) (vs : Items F) (v : Json F) (xs : List A) (x : A)
      → read_each get vs ≡ ok xs
      → get v ≡ ok x
      → read_each get (snoc vs v) ≡ ok (xs ++ x ∷ [])
  unfolding read_each snoc
  read_each-snoc get nil v xs x h g = ground (arith, g, h)
  read_each-snoc get (cons w vs) v xs x h g = elim (Expected-cases (get w)) [
    | inl (y, e) ↦ elim (Expected-cases (read_each get vs)) [
      | inl (ys, f) ↦
          let whole : ok (y ∷ ys) ≡ ok xs = rw (e, f) at h in
          rw (e, read_each-snoc get vs v ys x f g) (cc whole)
      | inr (err, f) ↦ (let no : unexpected err ≡ ok xs = rw (e, f) at h in cc)
    ]
    | inr (err, e) ↦ (let no : unexpected err ≡ ok xs = rw e at h in cc)
  ]

  -- Each element of a list reads back.
  abbrev pub AllRead : (A → Expected (Json F)) → (Json F → Expected A) → List A → Type ℓ
  AllRead write get [] = Unit
  AllRead write get (x ∷ xs) = ((write x >>= get) ≡ ok x) × AllRead write get xs

  pub read_each-written :
      (write : A → Expected (Json F)) (get : Json F → Expected A) (ys xs : List A) (vs : Items F)
      → read_each get vs ≡ ok ys
      → AllRead write get xs
      → (ws : Items F) × (written_each write xs vs ≡ ok ws) × (read_each get ws ≡ ok (ys ++ xs))
  unfolding written_each
  read_each-written write get ys [] vs h all = (vs, refl, h ∙ ap ok (sym (append-nil ys)))
  read_each-written write get ys (x ∷ xs) vs h (one, all) = elim (Expected-cases (write x)) [
    | inl (v, e) ↦
        let g : get v ≡ ok x = rw e at one in
        let (ws, made, got) =
          read_each-written write get (ys ++ x ∷ []) xs (snoc vs v)
            (read_each-snoc get vs v ys x h g) all in
        (ws, rw e made, got ∙ ap ok (append_assoc ys (x ∷ []) xs))
    | inr (e, f) ↦ (let no : unexpected e ≡ ok x = rw f at one in cc)
  ]
