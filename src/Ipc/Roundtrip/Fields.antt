-- ===== src/Ipc/Roundtrip/Fields.antt =====
-- Fields of the commands of src/ipc/protocol.cpp: read as they are written.
use Prim.Native.String.{String}
use mathlib.Core.List.{append-nil, append_assoc}
use caudio.Prelude.{
  ℕ, ◌<◌, ◌≡◌, refl, sym, ap, ◌∙◌, Bool, List, [], ◌∷◌, ◌++◌, Option, none, some, ok, ◌>>=◌, arith,
}
use caudio.Engine.{RepeatMode, off, all, one, other, Floats}
use caudio.Json.{
  Json, Items, object, field, end, snoc, nil, cons, Singles, Unsigned, boolean, integer, unsigned,
  real, string, array, or_null, sign_extend, is_number, is_string, is_boolean, is_array, get_int64,
  get_int, get_size, get_string, get_bool, get_double, get_float, taken, to_some, int_word,
}
use caudio.Ipc.{
  Command, volume_set, queue_repeat, library_search, library_stats, library_list, history_list,
}
use caudio.Ipc.Writing.{push_all, repeat_text}
use caudio.Ipc.Reading.Fields.{strings_of, strings_in, repeat_of}

-- The numbers of a command are within their types, and its repeat mode is one of the three.
unfoldable pub IsInt : Option ℕ → Type 0
IsInt none = Unit {0}
IsInt (some n) = n < int_word

unfoldable pub IsMode : Option RepeatMode → Type 0
IsMode (some (other b)) = ⊥
IsMode m = Unit {0}

unfoldable pub IsCommand : {F S : Type 0} → Command F S → Type 0
unfolding IsInt IsMode
IsCommand (volume_set level mute delta) = IsInt delta
IsCommand (queue_repeat mode) = IsMode mode
IsCommand (library_search query limit) = limit < int_word
IsCommand (library_stats top_n) = IsInt top_n
IsCommand (library_list query limit offset artist album genre) =
    (limit < int_word) × (offset < int_word)
IsCommand (history_list limit) = IsInt limit
IsCommand c = Unit {0}

module _ (F : Type 0) where
  pub string_field :
      (o : Option String)
      → taken is_string (to_some get_string) (or_null {F = F} (λ (x : String). string x) o) none
        ≡ ok o
  unfolding taken is_string to_some get_string or_null
  string_field none = refl
  string_field (some s) = refl

  pub bool_field :
      (o : Option Bool)
      → taken is_boolean (to_some get_bool) (or_null {F = F} (λ (x : Bool). boolean x) o) none
        ≡ ok o
  unfolding taken is_boolean to_some get_bool or_null
  bool_field none = refl
  bool_field (some b) = refl

  pub mode_field :
      (o : Option RepeatMode)
      → IsMode o
      → taken is_string repeat_of
          (or_null {F = F} (λ (m : RepeatMode). string (repeat_text m)) o)
          none
        ≡ ok o
  unfolding taken is_string repeat_of or_null repeat_text IsMode
  mode_field none h = refl
  mode_field (some off) h = refl
  mode_field (some all) h = refl
  mode_field (some one) h = refl
  mode_field (some (other b)) h = absurd h

  -- Fields that are always written.
  pub plain_string : (s d : String) → taken {F = F} is_string get_string (string s) d ≡ ok s
  unfolding taken is_string get_string
  plain_string s d = refl

  pub plain_bool : (b d : Bool) → taken {F = F} is_boolean get_bool (boolean b) d ≡ ok b
  unfolding taken is_boolean get_bool
  plain_bool b d = refl

  pub plain_full_hash :
      (b : Bool) → taken {F = F} is_boolean (to_some get_bool) (boolean b) none ≡ ok (some b)
  unfolding taken is_boolean get_bool to_some
  plain_full_hash b = refl

  pub plain_query :
      (s : String) → taken {F = F} is_string (to_some get_string) (string s) none ≡ ok (some s)
  unfolding taken is_string get_string to_some
  plain_query s = refl

module _ {F : Type 0} where
  -- A list of texts, pushed one by one and read again.
  unfoldable pub texts : Items F → List String → Items F
  texts xs [] = xs
  texts xs (p ∷ ps) = texts (snoc xs (string p)) ps

  pub push-texts :
      (t : Json F) (ps : List String) (xs : Items F)
      → push_all "paths" ps (object (field "type" t (field "paths" (array xs) end)))
        ≡ ok (object (field "type" t (field "paths" (array (texts xs ps)) end)))
  unfolding push_all texts
  push-texts t [] xs = refl
  push-texts t (p ∷ ps) xs = push-texts t ps (snoc xs (string p))

  strings-snoc :
      (xs : Items F) (p : String)
      → strings_in (snoc xs (string p)) ≡ (strings_in xs >>= λ ps. ok (ps ++ p ∷ []))
  unfolding strings_in snoc is_string get_string
  strings-snoc nil p = refl
  strings-snoc (cons x xs) p = ground (arith, strings-snoc xs p)

  strings-texts :
      (ps qs : List String) (xs : Items F)
      → strings_in xs ≡ ok qs
      → strings_in (texts xs ps) ≡ ok (qs ++ ps)
  unfolding texts
  strings-texts [] qs xs h = h ∙ ap ok (sym (append-nil qs))
  strings-texts (p ∷ ps) qs xs h =
      strings-texts ps (qs ++ p ∷ []) (snoc xs (string p)) (rw (strings-snoc xs p, h) refl)
      ∙ ap ok (append_assoc qs (p ∷ []) ps)

module _ (F : Type 0) where
  pub texts_field :
      (ps : List String) → taken {F = F} is_array strings_of (array (texts nil ps)) [] ≡ ok ps
  unfolding taken is_array strings_of strings_in
  texts_field ps = strings-texts ps [] nil refl

module _ (F : Type 0) ⦃fl : Floats F⦄ where
  pub plain_word : (n d : ℕ) → taken {F = F} is_number (get_int64 ⦃fl = fl⦄) (integer n) d ≡ ok n
  unfolding taken is_number get_int64
  plain_word n d = refl

  pub plain_size :
      ⦃un : Unsigned F⦄
      → (n d : ℕ) → taken {F = F} is_number (get_size ⦃fl = fl⦄) (unsigned n) d ≡ ok n
  unfolding taken is_number get_size
  plain_size n d = refl

  pub plain_real : (x d : F) → taken {F = F} is_number (get_double ⦃fl = fl⦄) (real x) d ≡ ok x
  unfolding taken is_number get_double
  plain_real x d = refl

  pub int_field :
      (n d : ℕ)
      → n < int_word
      → taken {F = F} is_number (get_int ⦃fl = fl⦄) (integer (sign_extend n)) d ≡ ok n
  unfolding taken is_number get_int get_int64
  int_field n d h = ground arith

  pub int_option :
      (o : Option ℕ)
      → IsInt o
      → taken {F = F} is_number
          (to_some (get_int ⦃fl = fl⦄))
          (or_null (λ (x : ℕ). integer (sign_extend x)) o)
          none
        ≡ ok o
  unfolding taken is_number get_int get_int64 to_some or_null IsInt
  int_option none h = refl
  int_option (some n) h = ground arith

  pub word_option :
      (o : Option ℕ)
      → taken {F = F} is_number
          (to_some (get_int64 ⦃fl = fl⦄))
          (or_null (λ (x : ℕ). integer x) o)
          none
        ≡ ok o
  unfolding taken is_number get_int64 to_some or_null
  word_option none = refl
  word_option (some n) = refl

  pub float_option :
      {S : Type 0} ⦃si : Singles F S⦄
      → ((x : S) → si.narrow (si.widen x) ≡ x)
      → (o : Option S)
      → taken {F = F} is_number
          (to_some (get_float ⦃fl = fl⦄))
          (or_null (λ (x : S). real (si.widen x)) o)
          none
        ≡ ok o
  unfolding taken is_number get_float get_double to_some or_null
  float_option law none = refl
  float_option law (some x) = ap (λ y. ok (some y)) (law x)
