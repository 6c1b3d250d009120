-- ===== src/EventStream/Moves.antt =====
-- Frames that join or leave the outbox, and the durable state that stays loadable.
use Prim.Native.String.{String}
use monty_pod.Common.{
  All, All-append, All-map, All-map₂, All-tail, List, [], arith, contains, contains-append, eqb,
  false, map-append, pair_beq, string_eq, tail, ◌&&◌, ◌++◌, ◌∷◌, ◌≡◌,
}
use monty_pod.EventStream.Frame.{Frame, Rejected, corr_of, frame_key, is_result}
use monty_pod.EventStream.State.{Durable, corrs_of, rejected_frames, result_corrs}
use monty_pod.EventStream.Invariant.{Distinct, IsClientFrame, NotIn, Sound}
use monty_pod.EventStream.Sound.{Distinct-append, corrs_of-append}
use monty_pod.StreamModels.{Job}

-- The frame does not complete the job of this inbox entry.
abbrev pub Leaves : Frame → String × Job → Type 0
Leaves f x = (is_result f.body && eqb (corr_of f.body) x.0) ≡ false

contains-added :
    (id : String) (fs : List Frame) (f : Frame) (more : List String)
    → contains id (corrs_of fs ++ more) ≡ false
    → (is_result f.body && eqb (corr_of f.body) id) ≡ false
    → contains id (corrs_of (fs ++ f ∷ []) ++ more) ≡ false
unfolding contains
contains-added id fs f more h k = ground (
  arith,
  corrs_of-append fs (f ∷ []),
  contains-append id (corrs_of fs) more,
  contains-append id (corrs_of fs) (corrs_of (f ∷ [])),
  contains-append id (corrs_of (fs ++ f ∷ [])) more,
)

contains-headed :
    (id : String) (fs : List Frame) (f : Frame) (more : List String)
    → contains id (corrs_of fs ++ more) ≡ false
    → (is_result f.body && eqb (corr_of f.body) id) ≡ false
    → contains id (corrs_of (f ∷ fs) ++ more) ≡ false
unfolding contains
contains-headed id fs f more h k = ground arith

contains-tail :
    (id : String) (fs : List Frame) (more : List String)
    → contains id (corrs_of fs ++ more) ≡ false
    → contains id (corrs_of (tail fs) ++ more) ≡ false
unfolding contains
contains-tail id [] more h = h
contains-tail id (f ∷ fs) more h = ground arith

contains-buried :
    (id : String) (f : Frame) (fs : List Frame) (rs : List Rejected) (r : Rejected)
    → r.frame ≡ f
    → contains id (corrs_of (f ∷ fs) ++ corrs_of (rejected_frames rs)) ≡ false
    → contains id (corrs_of fs ++ corrs_of (rejected_frames (rs ++ r ∷ []))) ≡ false
unfolding contains
contains-buried id f fs rs r e h = ground (
  arith,
  map-append (λ (x : Rejected). x.frame) rs (r ∷ []),
  corrs_of-append (rejected_frames rs) (r.frame ∷ []),
  contains-append id (corrs_of (f ∷ fs)) (corrs_of (rejected_frames rs)),
  contains-append id (corrs_of fs) (corrs_of (rejected_frames rs)),
  contains-append id (corrs_of fs) (corrs_of (rejected_frames rs) ++ corrs_of (r.frame ∷ [])),
  contains-append id (corrs_of (rejected_frames rs)) (corrs_of (r.frame ∷ [])),
)

module _ (d : Durable) where
  module _ (f : Frame) where
    pub added-Sound :
        IsClientFrame f
        → All (λ (g : Frame). pair_beq (frame_key g) (frame_key f) ≡ false) d.frames
        → All (Leaves f) d.inbox
        → Sound d
        → Sound (record d { frames = d.frames ++ f ∷ [] })
    added-Sound c k l s = record {
      clean = All-append IsClientFrame d.frames (f ∷ []) s.clean (c, tt);
      buried_clean = s.buried_clean;
      distinct_keys = Distinct-append d.frames f s.distinct_keys k;
      entries = s.entries;
      known = s.known;
      open_jobs =
          All-map₂ (NotIn (result_corrs d)) (Leaves f)
            (NotIn (result_corrs (record d { frames = d.frames ++ f ∷ [] })))
            (λ x h m. contains-added x.0 d.frames f (corrs_of (rejected_frames d.rejected)) h m)
            d.inbox s.open_jobs l;
    }

    pub headed-Sound :
        IsClientFrame f
        → All (λ (g : Frame). pair_beq (frame_key f) (frame_key g) ≡ false) d.frames
        → All (Leaves f) d.inbox
        → Sound d
        → Sound (record d { frames = f ∷ d.frames })
    headed-Sound c k l s = record {
      clean = (c, s.clean);
      buried_clean = s.buried_clean;
      distinct_keys = (k, s.distinct_keys);
      entries = s.entries;
      known = s.known;
      open_jobs =
          All-map₂ (NotIn (result_corrs d)) (Leaves f)
            (NotIn (result_corrs (record d { frames = f ∷ d.frames })))
            (λ x h m. contains-headed x.0 d.frames f (corrs_of (rejected_frames d.rejected)) h m)
            d.inbox s.open_jobs l;
    }

  Distinct-tail : (fs : List Frame) → Distinct fs → Distinct (tail fs)
  Distinct-tail [] h = tt
  Distinct-tail (g ∷ fs) h = h.1

  pub retired-Sound : Sound d → Sound (record d { frames = tail d.frames })
  retired-Sound s = record {
    clean = All-tail IsClientFrame d.frames s.clean;
    buried_clean = s.buried_clean;
    distinct_keys = Distinct-tail d.frames s.distinct_keys;
    entries = s.entries;
    known = s.known;
    open_jobs =
        All-map (NotIn (result_corrs d))
          (NotIn (result_corrs (record d { frames = tail d.frames })))
          (λ x h. contains-tail x.0 d.frames (corrs_of (rejected_frames d.rejected)) h) d.inbox
          s.open_jobs;
  }

  pub buried-Sound :
      (f : Frame) (rest : List Frame) (r : Rejected)
      → d.frames ≡ f ∷ rest
      → r.frame ≡ f
      → Sound d
      → Sound (record d { frames = rest; rejected = d.rejected ++ r ∷ [] })
  buried-Sound f rest r e q s =
      let clean : All IsClientFrame (f ∷ rest) = rw e at s.clean in
      let keys : Distinct (f ∷ rest) = rw e at s.distinct_keys in
      let jobs : All (NotIn (corrs_of (f ∷ rest) ++ corrs_of (rejected_frames d.rejected)))
          d.inbox =
        rw e at s.open_jobs in
      record {
        clean = clean.1;
        buried_clean = rw map-append (
            All-append IsClientFrame (rejected_frames d.rejected) (r.frame ∷ []) s.buried_clean
              (rw q clean.0, tt));
        distinct_keys = keys.1;
        entries = s.entries;
        known = s.known;
        open_jobs =
            All-map (NotIn (corrs_of (f ∷ rest) ++ corrs_of (rejected_frames d.rejected)))
              (NotIn (corrs_of rest ++ corrs_of (rejected_frames (d.rejected ++ r ∷ []))))
              (λ x h. contains-buried x.0 f rest d.rejected r q h) d.inbox jobs;
      }
