-- ===== src/StatusPage/Texts.antt =====
-- The texts of a page of src/ipc/shm_status.cpp: arrays of bytes that end with a zero.
use native.Mathlib.Decide.{ℕ_discrete}
use caudio.Prelude.{
  ℕ, zero, suc, ◌+◌, ◌≤◌, ◌<◌, ◌≡◌, ◌≢◌, refl, ap, sym, ◌∙◌, ◌==◌, List, [], ◌∷◌, ◌++◌,
  if◌then◌else◌, length, take, arith,
}
use caudio.StatusPage.{
  ShmStatus, apply, Load, get_title, get_artist, loaded, copies, loads, blank, with_byte,
}
use caudio.StatusPage.Views.{copy_all, snapshot}

-- The text that an array of `n` bytes holds from index `i` on.
unfoldable pub c_text : ℕ → ℕ → (ℕ → ℕ) → List ℕ
c_text zero i bytes = []
c_text (suc n) i bytes =
    let rest = c_text n (i + 1) bytes in if bytes i == 0 then [] else bytes i ∷ rest

-- What a text looks like behind a call of publish: an empty one leaves the text before it.
unfoldable pub shown : List ℕ → List ℕ → List ℕ
shown [] before = before
shown (c ∷ cs) before = take 255 (c ∷ cs)

abbrev pub NoZero : List ℕ → Type 0
NoZero [] = Unit {0}
NoZero (c ∷ cs) = (c ≢ 0) × NoZero cs

pub NoZero-take : (n : ℕ) (cs : List ℕ) → NoZero cs → NoZero (take n cs)
NoZero-take zero cs h = tt
NoZero-take (suc n) [] h = tt
NoZero-take (suc n) (c ∷ cs) (one, h) = (one, NoZero-take n cs h)

pub length-take_le : (n : ℕ) (cs : List ℕ) → length (take n cs) ≤ n
length-take_le zero cs = omega arith
length-take_le (suc n) [] = omega arith
length-take_le (suc n) (c ∷ cs) = omega (arith, length-take_le n cs)

with_byte_self : (i c : ℕ) (bytes : ℕ → ℕ) → with_byte i c bytes i ≡ c
with_byte_self i c bytes = ground arith

with_byte_other : (i j c : ℕ) (bytes : ℕ → ℕ) → i ≢ j → with_byte i c bytes j ≡ bytes j
with_byte_other i j c bytes h = ground (arith, h)

-- `n` bytes of one array written into another, from index `i` on.
unfoldable pub fill : (ℕ → ℕ) → ℕ → ℕ → (ℕ → ℕ) → ℕ → ℕ
fill src i zero dst = dst
fill src i (suc n) dst = fill src (i + 1) n (with_byte i (src i) dst)

fill_below : (src : ℕ → ℕ) (i n : ℕ) (dst : ℕ → ℕ) (j : ℕ) → j < i → fill src i n dst j ≡ dst j
unfolding fill
fill_below src i zero dst j h = refl
fill_below src i (suc n) dst j h =
    fill_below src (i + 1) n (with_byte i (src i) dst) j (omega arith)
    ∙ with_byte_other i j (src i) dst (λ e. omega arith)

fill_lem :
    (src : ℕ → ℕ) (i n : ℕ) (dst : ℕ → ℕ) (j : ℕ) → i ≤ j → j < i + n → fill src i n dst j ≡ src j
unfolding fill
fill_lem src i zero dst j low high = absurd (omega arith)
fill_lem src i (suc n) dst j low high = elim (ℕ_discrete i j) [
  | yes e ↦
      fill_below src (i + 1) n (with_byte i (src i) dst) j (omega arith)
      ∙ ap (with_byte i (src i) dst) (sym e)
      ∙ with_byte_self i (src i) dst
      ∙ ap src e
  | no e ↦ fill_lem src (i + 1) n (with_byte i (src i) dst) j (omega arith) (omega arith)
]

copies-title :
    (i n : ℕ) (p out : ShmStatus) (ls : List Load)
    → copy_all (copies get_title i n ++ ls) p out
      ≡ copy_all ls p (record out { title = fill p.title i n out.title })
unfolding copy_all copies fill loaded apply
copies-title i zero p out ls = refl
copies-title i (suc n) p out ls =
    copies-title (i + 1) n p (record out { title = with_byte i (p.title i) out.title }) ls

copies-artist :
    (i n : ℕ) (p out : ShmStatus)
    → copy_all (copies get_artist i n) p out ≡ record out { artist = fill p.artist i n out.artist }
unfolding copy_all copies fill loaded apply
copies-artist i zero p out = refl
copies-artist i (suc n) p out =
    copies-artist (i + 1) n p (record out { artist = with_byte i (p.artist i) out.artist })

-- Every field of a copy.
pub snapshot_lem :
    (p : ShmStatus)
    → snapshot p
      ≡ record p { title = fill p.title 0 256 (λ _. 0); artist = fill p.artist 0 256 (λ _. 0) }
unfolding snapshot copy_all loads loaded apply blank
snapshot_lem p = copies-title 0 256 p _ (copies get_artist 0 256) ∙ copies-artist 0 256 p _

-- A text written with its zero, from index `i` on.
unfoldable pub write_text : ℕ → List ℕ → (ℕ → ℕ) → ℕ → ℕ
write_text i [] dst = with_byte i 0 dst
write_text i (c ∷ cs) dst = write_text (i + 1) cs (with_byte i c dst)

write_text_below :
    (i : ℕ) (cs : List ℕ) (dst : ℕ → ℕ) (j : ℕ) → j < i → write_text i cs dst j ≡ dst j
unfolding write_text
write_text_below i [] dst j h = with_byte_other i j 0 dst (λ e. omega arith)
write_text_below i (c ∷ cs) dst j h =
    write_text_below (i + 1) cs (with_byte i c dst) j (omega arith)
    ∙ with_byte_other i j c dst (λ e. omega arith)

pub c_text-write_text :
    (n i : ℕ) (cs : List ℕ) (dst : ℕ → ℕ)
    → length cs < n
    → NoZero cs
    → c_text n i (write_text i cs dst) ≡ cs
unfolding c_text write_text
c_text-write_text zero i cs dst room h = absurd (omega arith)
c_text-write_text (suc n) i [] dst room h = rw (with_byte_self i 0 dst) refl
c_text-write_text (suc n) i (c ∷ cs) dst room (one, h) =
    let here : write_text (i + 1) cs (with_byte i c dst) i ≡ c =
      write_text_below (i + 1) cs (with_byte i c dst) i (omega arith) ∙ with_byte_self i c dst in
    rw (here, c_text-write_text n (i + 1) cs (with_byte i c dst) (omega arith) h)
      (ground (arith, one))

-- The bytes that the array has decide.
c_text_agree :
    (n i : ℕ) (f g : ℕ → ℕ)
    → ((j : ℕ) → i ≤ j → j < i + n → f j ≡ g j)
    → c_text n i f ≡ c_text n i g
unfolding c_text
c_text_agree zero i f g h = refl
c_text_agree (suc n) i f g h =
    rw
      (
        h i (omega arith) (omega arith),
        c_text_agree n (i + 1) f g (λ j low high. h j (omega arith) (omega arith)),
      )
      refl

pub c_text-fill : (src : ℕ → ℕ) → c_text 256 0 (fill src 0 256 (λ _. 0)) ≡ c_text 256 0 src
c_text-fill src =
    c_text_agree 256 0 (fill src 0 256 (λ _. 0)) src
      (λ j low high. fill_lem src 0 256 (λ _. 0) j low high)
