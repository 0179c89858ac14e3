-- ===== src/StatusPage/Views.antt =====
-- Pages of src/ipc/shm_status.cpp that agree on the fields that publish stores.
use caudio.Prelude.{◌≡◌, refl, ap, ◌∙◌, List, [], ◌∷◌}
use caudio.StatusPage.{
  ShmStatus, Store, set_position, set_duration, set_volume, set_state, set_track_id, set_queue_size,
  set_muted, set_title, set_artist, apply, apply_all, with_byte, Load, get_position, get_duration,
  get_volume, get_muted, get_state, get_track_id, get_queue_size, get_title, get_artist, loaded,
  loads, blank,
}

-- The duration, the queue size and the sequence number are left out.
pub data Same (p q : ShmStatus) : Type 0 where
  same :
      p.position ≡ q.position
      → p.volume ≡ q.volume
      → p.muted ≡ q.muted
      → p.state ≡ q.state
      → p.track_id ≡ q.track_id
      → p.title ≡ q.title
      → p.artist ≡ q.artist
      → Same p q

pub Same-refl : (p : ShmStatus) → Same p p
Same-refl p = same refl refl refl refl refl refl refl

pub Same-trans : {p q r : ShmStatus} → Same p q → Same q r → Same p r
Same-trans (same a1 a2 a3 a4 a5 a6 a7) (same b1 b2 b3 b4 b5 b6 b7) =
    same (a1 ∙ b1) (a2 ∙ b2) (a3 ∙ b3) (a4 ∙ b4) (a5 ∙ b5) (a6 ∙ b6) (a7 ∙ b7)

pub apply-Same : (s : Store) {p q : ShmStatus} → Same p q → Same (apply s p) (apply s q)
unfolding apply
apply-Same (set_position n) (same e1 e2 e3 e4 e5 e6 e7) = same refl e2 e3 e4 e5 e6 e7
apply-Same (set_duration n) (same e1 e2 e3 e4 e5 e6 e7) = same e1 e2 e3 e4 e5 e6 e7
apply-Same (set_volume n) (same e1 e2 e3 e4 e5 e6 e7) = same e1 refl e3 e4 e5 e6 e7
apply-Same (set_state n) (same e1 e2 e3 e4 e5 e6 e7) = same e1 e2 e3 refl e5 e6 e7
apply-Same (set_track_id n) (same e1 e2 e3 e4 e5 e6 e7) = same e1 e2 e3 e4 refl e6 e7
apply-Same (set_queue_size n) (same e1 e2 e3 e4 e5 e6 e7) = same e1 e2 e3 e4 e5 e6 e7
apply-Same (set_muted b) (same e1 e2 e3 e4 e5 e6 e7) = same e1 e2 refl e4 e5 e6 e7
apply-Same (set_title i c) (same e1 e2 e3 e4 e5 e6 e7) =
    same e1 e2 e3 e4 e5 (ap (with_byte i c) e6) e7
apply-Same (set_artist i c) (same e1 e2 e3 e4 e5 e6 e7) =
    same e1 e2 e3 e4 e5 e6 (ap (with_byte i c) e7)

pub apply_all-Same :
    (ss : List Store) {p q : ShmStatus} → Same p q → Same (apply_all ss p) (apply_all ss q)
unfolding apply_all
apply_all-Same [] h = h
apply_all-Same (s ∷ ss) h = apply_all-Same ss (apply-Same s h)

pub apply-seq : (s : Store) (p : ShmStatus) → (apply s p).seq ≡ p.seq
unfolding apply
apply-seq (set_position n) p = refl
apply-seq (set_duration n) p = refl
apply-seq (set_volume n) p = refl
apply-seq (set_state n) p = refl
apply-seq (set_track_id n) p = refl
apply-seq (set_queue_size n) p = refl
apply-seq (set_muted b) p = refl
apply-seq (set_title i c) p = refl
apply-seq (set_artist i c) p = refl

-- What is loaded from two such pages leaves two such copies.
pub loaded-Same :
    (l : Load) {p q : ShmStatus} (out : ShmStatus)
    → Same p q
    → Same (apply (loaded l p) out) (apply (loaded l q) out)
unfolding apply loaded
loaded-Same get_position out (same e1 e2 e3 e4 e5 e6 e7) = same e1 refl refl refl refl refl refl
loaded-Same get_duration out (same e1 e2 e3 e4 e5 e6 e7) = same refl refl refl refl refl refl refl
loaded-Same get_volume out (same e1 e2 e3 e4 e5 e6 e7) = same refl e2 refl refl refl refl refl
loaded-Same get_muted out (same e1 e2 e3 e4 e5 e6 e7) = same refl refl e3 refl refl refl refl
loaded-Same get_state out (same e1 e2 e3 e4 e5 e6 e7) = same refl refl refl e4 refl refl refl
loaded-Same get_track_id out (same e1 e2 e3 e4 e5 e6 e7) = same refl refl refl refl e5 refl refl
loaded-Same get_queue_size out (same e1 e2 e3 e4 e5 e6 e7) = same refl refl refl refl refl refl refl
loaded-Same (get_title i) out (same e1 e2 e3 e4 e5 e6 e7) =
    same refl refl refl refl refl (ap (λ c. with_byte i c out.title) (ap (λ t. t i) e6)) refl
loaded-Same (get_artist i) out (same e1 e2 e3 e4 e5 e6 e7) =
    same refl refl refl refl refl refl (ap (λ c. with_byte i c out.artist) (ap (λ t. t i) e7))

-- The rest of a copy, from a page that does not change.
unfoldable pub copy_all : List Load → ShmStatus → ShmStatus → ShmStatus
copy_all [] p out = out
copy_all (l ∷ ls) p out = copy_all ls p (apply (loaded l p) out)

pub copy_all-Same :
    (ls : List Load) (p : ShmStatus) {a b : ShmStatus}
    → Same a b
    → Same (copy_all ls p a) (copy_all ls p b)
unfolding copy_all
copy_all-Same [] p h = h
copy_all-Same (l ∷ ls) p h = copy_all-Same ls p (apply-Same (loaded l p) h)

-- What a reader copies while no one writes: snapshot of a page.
unfoldable pub snapshot : ShmStatus → ShmStatus
unfolding copy_all blank loads
snapshot p = copy_all loads p (blank p.seq)
