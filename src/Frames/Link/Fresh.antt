-- ===== src/Frames/Link/Fresh.antt =====
-- A new framer and a new deframer.
use chronus_gateway.Prelude.{
  ℕ, zero, suc, ◌<◌, ◌≡◌, refl, subst, sym, Bool, [], inr, arith, get_or, replicate,
}
use chronus_gateway.Frames.Deframer.{FramingConfig, VcState, fresh_vc}
use chronus_gateway.Frames.Deframer
use chronus_gateway.Frames.Deframer.Accept.{vc_of}
use chronus_gateway.Frames.Builder.{
  TmFrameBuilder, BuilderVc, fresh_builder_vc, builder_vc_of, with_fecf, pop_before,
}
use chronus_gateway.Frames.Builder
use chronus_gateway.Frames.Link.State.{InStep, Matches, Shared}
use chronus_gateway.Frames.Link.Emit.{FramerOk}

get_or-replicate {ℓ} : {A : Type ℓ} (n i : ℕ) (a : A) → get_or (replicate n a) i a ≡ a
get_or-replicate zero i a = refl
get_or-replicate (suc n) zero a = refl
get_or-replicate (suc n) (suc i) a = get_or-replicate n i a

fresh-Shared : Shared fresh_builder_vc fresh_vc []
unfolding pop_before
fresh-Shared = record {
  count = omega arith;
  awaits = inr (refl, refl, refl);
  packets = tt;
  row = refl;
  begins = refl;
  sent = omega arith;
  aligned = refl;
}

-- The framer that `new` and `with_fecf` make, for any arguments.
pub new-FramerOk : (id len : ℕ) (fecf : Bool) → FramerOk (with_fecf fecf (Builder.new id len))
unfolding with_fecf Builder.new
new-FramerOk id len fecf = record {
  spacecraft = omega arith;
  shortest = omega arith;
  longest = omega arith;
  count = omega arith;
  channels = refl;
}

new-Shared :
    (id len : ℕ) (fecf : Bool) (c : FramingConfig) (vcid : ℕ)
    → Shared
        (builder_vc_of (with_fecf fecf (Builder.new id len)) vcid)
        (vc_of (Deframer.new c) vcid)
        []
unfolding with_fecf Builder.new
new-Shared id len fecf c vcid =
    subst (λ at. Shared at (vc_of (Deframer.new c) vcid) [])
      (sym (get_or-replicate 8 vcid fresh_builder_vc))
      (subst (λ vc. Shared fresh_builder_vc vc []) (sym (get_or-replicate 8 vcid fresh_vc))
        fresh-Shared)

pub new-InStep :
    (id len : ℕ) (fecf : Bool) (c : FramingConfig) (vcid : ℕ)
    → Matches c (with_fecf fecf (Builder.new id len)) vcid
    → vcid < 8
    → InStep (with_fecf fecf (Builder.new id len)) (Deframer.new c) vcid []
new-InStep id len fecf c vcid m h = record {
  framer = new-FramerOk id len fecf;
  matches = m;
  channels = refl;
  channel = h;
  shared = new-Shared id len fecf c vcid;
}
