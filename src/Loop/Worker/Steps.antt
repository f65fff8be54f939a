-- ===== src/Loop/Worker/Steps.antt =====
-- The steps of the pump loop of loop/worker.cpp: what a call of the session, a handler and a
-- destructor leave behind.
use itb_cpp.Base.{◌≡◌, ◌⊎◌, inl, inr, ◌∷◌, Bytes, codes, length, or_else, not, ◌==◌}
use itb_cpp.Base.Int.{pos, is_nat}
use itb_cpp.Binding.World.{
  Library, World, Outcome, ret, raise, spin, M, pure, throw, itb_error, invalid_argument,
  stream_wrote, stream_ended, ◌>>=◌,
}
use itb_cpp.Binding.World.Ways.{
  Any, Nowhere, Ways, Leads, bind-Leads, sum-Leads, if-Leads, pure-Leads,
}
use itb_cpp.Binding.Memory.{overwrite}
use itb_cpp.Binding.Errors.Throws.{check-cases}
use itb_cpp.Binding.Stream.{Stream, StreamRead, read_entry, read, write, end, close, destroy}
use itb_cpp.Loop.Main.Caught.{Seen}
use itb_cpp.Loop.Worker.{Failure, ◌>=>◌}

module _ {L : Type 0} where
  pub then-Leads :
      {A B : Type 0} (P : World L → Type 0) (Q : A → World L → Type 0) (R : B → World L → Type 0)
      (m : M L (Failure ⊎ A)) (f : A → M L (Failure ⊎ B))
      → Leads P m (Seen Q Any) Nowhere
      → ((a : A) → Leads (Q a) (f a) (Seen R Any) Nowhere)
      → Leads P (m >=> f) (Seen R Any) Nowhere
  then-Leads P Q R m f h k = bind-Leads P (Seen Q Any) (Seen R Any) Nowhere m _ h (λ r.
      sum-Leads (Seen R Any) Nowhere (Seen Q Any) r
        (λ failure. pure-Leads (Seen R Any) Nowhere _ (inl failure) (λ w u. u)) k)

  -- What holds of the value stays true behind the destructor.
  pub finally-outcome :
      {A : Type 0} (Q : A → World L → Type 0) (K : A → Type 0) (o : Outcome L A)
      (dtor : M L (Unit {0}))
      → ((a : A) (w : World L) → Q a w → K a)
      → Ways Q Nowhere o
      → Leads Any dtor (λ u w. Any w) Nowhere
      → Ways
          (λ a w. K a)
          Nowhere
          (elim o [
            | ret a w' ↦ (dtor >>= λ _. pure a) w'
            | raise e w' ↦ (dtor >>= λ _. throw {L = L} {A = A} e) w'
            | spin w' ↦ spin w'
          ])
  finally-outcome Q K (ret a w) dtor m h k =
      (bind-Leads Any (λ u w. Any w) (λ a w. K a) Nowhere dtor (λ _. pure a) k
          (λ u. pure-Leads (λ a w. K a) Nowhere Any a (λ w' u'. m a w h))).leads
        w tt
  finally-outcome Q K (raise (itb_error status text) w) dtor m h k = absurd h
  finally-outcome Q K (raise (invalid_argument text) w) dtor m h k = absurd h
  finally-outcome Q K (spin w) dtor m h k = absurd h

module _ {L : Type 0} (lib : Library L) (s : Stream) where
  pub read-Leads :
      (P : World L → Type 0) (Q : StreamRead → World L → Type 0) (dst : Bytes)
      → ((w : World L)
          → P w
          → (lib.stream_read s.handle (length dst) w.lib).0.rc ≡ pos 0
          → let (d, l) = lib.stream_read s.handle (length dst) w.lib in
            Q
              (record {
                n = or_else d.len 0;
                finished = not (is_nat (or_else d.fin (pos 0)) 0);
                dst = overwrite d.out dst;
              })
              (record w { lib = l; calls = read_entry dst d ∷ w.calls }))
      → Leads P (read lib s dst) Q Any
  unfolding read
  read-Leads P Q dst k = record {
    leads = λ w p.
        let r = lib.stream_read s.handle (length dst) w.lib in
        let called = record w { lib = r.1; calls = read_entry dst r.0 ∷ w.calls } in
        elim (check-cases lib r.0.rc (codes "Stream::read") called) [
          | inl (z, t) ↦ rw (t, ◌>>=◌) (k w p z)
          | inr (nz, (diag, w', t)) ↦ rw (t, ◌>>=◌) tt
        ];
  }

  pub write-Leads :
      (P Q : World L → Type 0) (src : Bytes)
      → ((w : World L)
          → P w
          → (lib.stream_write s.handle src w.lib).0 ≡ pos 0
          → let (rc, l) = lib.stream_write s.handle src w.lib in
            Q (record w { lib = l; calls = stream_wrote rc src ∷ w.calls }))
      → Leads P (write lib s src) (λ u w. Q w) Any
  unfolding write
  write-Leads P Q src k = record {
    leads = λ w p.
        let r = lib.stream_write s.handle src w.lib in
        let called = record w { lib = r.1; calls = stream_wrote r.0 src ∷ w.calls } in
        elim (check-cases lib r.0 (codes "Stream::write") called) [
          | inl (z, t) ↦ rw t (k w p z)
          | inr (nz, (diag, w', t)) ↦ rw t tt
        ];
  }

  pub end-Leads :
      (P Q : World L → Type 0)
      → ((w : World L)
          → P w
          → (lib.stream_end s.handle w.lib).0 ≡ pos 0
          → let (rc, l) = lib.stream_end s.handle w.lib in
            Q (record w { lib = l; calls = stream_ended rc ∷ w.calls }))
      → Leads P (end lib s) (λ u w. Q w) Any
  unfolding end
  end-Leads P Q k = record {
    leads = λ w p.
        let r = lib.stream_end s.handle w.lib in
        let called = record w { lib = r.1; calls = stream_ended r.0 ∷ w.calls } in
        elim (check-cases lib r.0 (codes "Stream::end") called) [
          | inl (z, t) ↦ rw t (k w p z)
          | inr (nz, (diag, w', t)) ↦ rw t tt
        ];
  }

  pub destroy-Leads : Leads Any (destroy lib s) (λ u w. Any w) Nowhere
  unfolding destroy close
  destroy-Leads =
      bind-Leads Any (λ s' w. Any w) (λ u w. Any w) Nowhere (close lib s) _
        (if-Leads (λ s' w. Any w) Nowhere Any (s.handle == 0) (record { leads = λ w u. tt })
          (record { leads = λ w u. tt }))
        (λ s'. record { leads = λ w u. tt })
