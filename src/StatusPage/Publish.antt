-- ===== src/StatusPage/Publish.antt =====
-- What publish of src/ipc/shm_status.cpp leaves for a reader.
use caudio.Prelude.{ℕ, ◌+◌, ◌%◌, ◌≡◌, refl, ap, ◌∙◌, List, [], ◌∷◌, ◌++◌, word, take, arith}
use caudio.StatusPage.{
  ShmStatus, ShmStatusUpdate, Store, set_title, set_artist, apply, apply_all, copy_text,
  text_stores, stores, even_seq, publish,
}
use caudio.StatusPage.Views.{snapshot}
use caudio.StatusPage.Texts.{
  c_text, shown, NoZero, NoZero-take, length-take_le, write_text, c_text-write_text, c_text-fill,
  snapshot_lem,
}

-- What the stores of a text leave of the text before it.
stored : List ℕ → (ℕ → ℕ) → ℕ → ℕ
stored [] before = before
stored (c ∷ cs) before = write_text 0 (take 255 (c ∷ cs)) before

copy_text-title :
    (i : ℕ) (cs : List ℕ) (rest : List Store) (p : ShmStatus)
    → apply_all (copy_text set_title i cs ++ rest) p
      ≡ apply_all rest (record p { title = write_text i cs p.title })
unfolding apply_all copy_text apply write_text
copy_text-title i [] rest p = refl
copy_text-title i (c ∷ cs) rest p = copy_text-title (i + 1) cs rest (apply (set_title i c) p)

copy_text-artist :
    (i : ℕ) (cs : List ℕ) (p : ShmStatus)
    → apply_all (copy_text set_artist i cs) p ≡ record p { artist = write_text i cs p.artist }
unfolding apply_all copy_text apply write_text
copy_text-artist i [] p = refl
copy_text-artist i (c ∷ cs) p = copy_text-artist (i + 1) cs (apply (set_artist i c) p)

text_stores-title :
    (t : List ℕ) (rest : List Store) (p : ShmStatus)
    → apply_all (text_stores set_title t ++ rest) p
      ≡ apply_all rest (record p { title = stored t p.title })
unfolding text_stores stored
text_stores-title [] rest p = refl
text_stores-title (c ∷ cs) rest p = copy_text-title 0 (take 255 (c ∷ cs)) rest p

text_stores-artist :
    (t : List ℕ) (p : ShmStatus)
    → apply_all (text_stores set_artist t) p ≡ record p { artist = stored t p.artist }
unfolding text_stores stored apply_all
text_stores-artist [] p = refl
text_stores-artist (c ∷ cs) p = copy_text-artist 0 (take 255 (c ∷ cs)) p

-- Every field of the page.
publish_lem :
    (u : ShmStatusUpdate) (p : ShmStatus)
    → publish u p ≡ record p {
      seq = (even_seq p.seq + 2) % word;
      position = u.position;
      volume = u.volume;
      muted = u.muted;
      state = u.state;
      track_id = u.track_id;
      title = stored u.title p.title;
      artist = stored u.artist p.artist;
    }
unfolding publish stores apply_all apply
publish_lem u p =
    ap (λ (q : ShmStatus). record q { seq = (even_seq p.seq + 2) % word })
      (text_stores-title u.title (text_stores set_artist u.artist) _
        ∙ text_stores-artist u.artist _)

c_text-stored :
    (t : List ℕ) (before : ℕ → ℕ)
    → NoZero t
    → c_text 256 0 (stored t before) ≡ shown t (c_text 256 0 before)
unfolding stored shown
c_text-stored [] before h = refl
c_text-stored (c ∷ cs) before h =
    c_text-write_text 256 0 (take 255 (c ∷ cs)) before (omega (arith, length-take_le 255 (c ∷ cs)))
      (NoZero-take 255 (c ∷ cs) h)

-- A copy that a reader takes behind a call of publish has the fields of the update, and of its
-- title and its artist, where they hold no zero byte, the first 255 bytes. A text that is empty in
-- the update is the one that the page showed before; the duration and the queue size are kept.
pub snapshot-publish :
    (u : ShmStatusUpdate) (p : ShmStatus)
    → NoZero u.title
    → NoZero u.artist
    → let out = snapshot (publish u p) in
      (out.position ≡ u.position)
      × (out.volume ≡ u.volume)
      × (out.muted ≡ u.muted)
      × (out.state ≡ u.state)
      × (out.track_id ≡ u.track_id)
      × (out.duration ≡ p.duration)
      × (out.queue_size ≡ p.queue_size)
      × (c_text 256 0 out.title ≡ shown u.title (c_text 256 0 p.title))
      × (c_text 256 0 out.artist ≡ shown u.artist (c_text 256 0 p.artist))
snapshot-publish u p title artist =
    rw (snapshot_lem (publish u p), publish_lem u p)
      (
        refl,
        refl,
        refl,
        refl,
        refl,
        refl,
        refl,
        c_text-fill (stored u.title p.title) ∙ c_text-stored u.title p.title title,
        c_text-fill (stored u.artist p.artist) ∙ c_text-stored u.artist p.artist artist,
      )
