-- ===== src/EventStream/Keep.antt =====
-- Durable writes, latches and appends keep the invariant.
use Prim.Native.String.{String}
use monty_pod.Common.{
  All, All-map, Bool, List, arith, eq_iff, false, pair_beq, refl, some, true, ℕ, ◌+◌, ◌∙◌, ◌≡◌, ◌≤◌,
}
use monty_pod.StreamModels.{is_stream_id}
use monty_pod.EventStream.Frame.{Frame, frame_key}
use monty_pod.EventStream.State.{Stream, Unhealthy, clear_storage, latch, persist}
use monty_pod.EventStream.Invariant.{Earlier, IsValid, Sound}

-- What the invariant reads is unchanged.
pub record Same (s t : Stream) : Type 0 where
  pub same_live : t.live ≡ s.live
  pub same_disk : t.disk ≡ s.disk
  pub same_id : t.stream_id ≡ s.stream_id
  pub same_seq : t.next_seq ≡ s.next_seq

pub Same-trans : {s t u : Stream} → Same s t → Same t u → Same s u
Same-trans a b = record {
  same_live = b.same_live ∙ a.same_live;
  same_disk = b.same_disk ∙ a.same_disk;
  same_id = b.same_id ∙ a.same_id;
  same_seq = b.same_seq ∙ a.same_seq;
}

pub Same-IsValid : {s t : Stream} → Same s t → IsValid s → IsValid t
Same-IsValid {s} {t} e v = record {
  live_sound = rw e.same_live v.live_sound;
  disk_sound = rw e.same_disk v.disk_sound;
  saved_frames = rw (e.same_disk, e.same_live) v.saved_frames;
  saved_rejected = rw (e.same_disk, e.same_live) v.saved_rejected;
  earlier = rw (e.same_live, e.same_id, e.same_seq) v.earlier;
  own_id = rw e.same_id v.own_id;
  numbered = rw e.same_seq v.numbered;
}

pub latch-Same : (e : Unhealthy) (b : Bool) (s : Stream) → Same s (latch e b s)
unfolding latch
latch-Same e b s = record { same_live = refl; same_disk = refl; same_id = refl; same_seq = refl }

-- A state whose durable part may be written.
pub record Ready (s : Stream) : Type 0 where
  pub ready_sound : Sound s.live
  pub ready_earlier : All (Earlier s.stream_id s.next_seq) s.live.frames
  pub ready_id : is_stream_id s.stream_id ≡ true
  pub ready_seq : 1 ≤ s.next_seq

-- After a write that succeeded, the disk holds what is in memory.
pub record Written (s t : Stream) : Type 0 where
  pub wrote_live : t.live ≡ s.live
  pub wrote_disk : t.disk ≡ s.live
  pub wrote_id : t.stream_id ≡ s.stream_id
  pub wrote_seq : t.next_seq ≡ s.next_seq

pub persist-Written : (b : Bool) (s : Stream) {t : Stream} → persist b s ≡ some t → Written s t
unfolding persist clear_storage
persist-Written false s e = absurd (cc)
persist-Written true s e = record {
  wrote_live = ground arith;
  wrote_disk = ground arith;
  wrote_id = ground arith;
  wrote_seq = ground arith;
}

pub persist-IsValid :
    (b : Bool) (s : Stream) {t : Stream} → persist b s ≡ some t → Ready s → IsValid t
persist-IsValid b s e r =
    let w = persist-Written b s e in
    record {
      live_sound = rw w.wrote_live r.ready_sound;
      disk_sound = rw w.wrote_disk r.ready_sound;
      saved_frames = rw (w.wrote_live, w.wrote_disk);
      saved_rejected = rw (w.wrote_live, w.wrote_disk);
      earlier = rw (w.wrote_live, w.wrote_id, w.wrote_seq) r.ready_earlier;
      own_id = rw w.wrote_id r.ready_id;
      numbered = rw w.wrote_seq r.ready_seq;
    }

pub IsValid-Ready : {s : Stream} → IsValid s → Ready s
IsValid-Ready v = record {
  ready_sound = v.live_sound;
  ready_earlier = v.earlier;
  ready_id = v.own_id;
  ready_seq = v.numbered;
}

-- The frame that the next append writes has a new identity.
pub new_key :
    (id : String) (n : ℕ) (fs : List Frame)
    → All (Earlier id n) fs
    → All (λ (g : Frame). pair_beq (frame_key g) (id, n) ≡ false) fs
new_key id n fs h = All-map (Earlier id n) _ (λ g e. ground arith) fs h

pub new_key_left :
    (id : String) (n : ℕ) (fs : List Frame)
    → All (Earlier id n) fs
    → All (λ (g : Frame). pair_beq (id, n) (frame_key g) ≡ false) fs
new_key_left id n fs h =
    All-map (Earlier id n) _ (λ g e. ground (arith, eq_iff g.stream_id id, eq_iff id g.stream_id))
      fs h

pub Earlier-suc :
    (id : String) (n : ℕ) (fs : List Frame) → All (Earlier id n) fs → All (Earlier id (n + 1)) fs
Earlier-suc id n fs h = All-map (Earlier id n) (Earlier id (n + 1)) (λ g e. ground arith) fs h
