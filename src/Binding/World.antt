-- ===== src/Binding/World.antt =====
-- What the binding runs on: libitb3 as a parameter, the storage that it releases, and the calls
-- that it has made; a C++ function that may throw is a function from the world to an outcome.
pub mod Keeps
pub mod Total
pub mod Ends
pub mod Returned
pub mod Ways
use itb_cpp.Base.{ℕ, Bool, List, ◌∷◌, ◌++◌, Option, Bytes}
use itb_cpp.Base.Int.{ℤ}
use itb_cpp.Binding.Status.{Status}

-- What a call with a caller-allocated buffer answers: its return code, the value that it stored
-- through `out_len` (`none` if it left it alone) and the bytes that it wrote from the buffer's start.
pub record Reply : Type 0 where
  pub rc : ℤ
  pub len : Option ℕ
  pub out : Bytes

-- A stream read: the drained count and the finished flag are `none` where they were left alone.
pub record Drained : Type 0 where
  pub rc : ℤ
  pub len : Option ℕ
  pub fin : Option ℤ
  pub out : Bytes

-- A call that opens a handle.
pub record Opened : Type 0 where
  pub rc : ℤ
  pub handle : Option ℕ

-- The C ABI of libitb3 that the binding links against, over the library's own state `L`. A
-- buffer is passed as its capacity. `leftover` is what uninitialised storage holds.
pub record Library (L : Type 0) : Type 0 where
  pub leftover : ℕ → L → Bytes
  pub last_error : ℕ → L → Reply × L
  pub version : ℕ → L → Reply × L
  pub drbg_auto_tier : ℕ → L → Reply × L
  pub set_memory_limit : ℤ → L → ℤ × L
  pub set_gc_percent : ℤ → L → ℤ × L
  pub set_gomaxprocs : ℤ → L → ℤ × L
  pub write_heap_profile : Bytes → L → ℤ × L
  pub pool_stats_len : L → ℤ × L
  pub pool_stats : ℕ → L → (ℤ × Option ℕ × List ℤ) × L
  pub init : Bytes → Bytes → ℕ → L → (Reply × Option ℕ) × L
  pub init_keys : Bytes → Bytes → Bytes → List ℕ → ℕ → L → (Reply × Option ℕ) × L
  pub load : Bytes → Bytes → Bytes → ℕ → L → Opened × L
  pub load_f : Bytes → Bytes → Bytes → ℕ → L → Opened × L
  pub free : ℕ → L → ℤ × L
  pub close : ℕ → L → ℤ × L
  pub save : ℕ → ℕ → L → Reply × L
  pub save_f : ℕ → Bytes → L → ℤ × L
  pub max_workers : ℕ → ℤ → L → ℤ × L
  pub rekey : ℕ → Bytes → Bytes → ℕ → L → Reply × L
  pub encrypt_message : ℕ → Bytes → ℕ → L → Reply × L
  pub decrypt_message : ℕ → Bytes → ℕ → L → Reply × L
  pub encrypt_stream : ℕ → Bytes → ℕ → L → Reply × L
  pub decrypt_stream : ℕ → Bytes → ℕ → L → Reply × L
  pub encrypt_stream_begin : ℕ → L → Opened × L
  pub decrypt_stream_begin : ℕ → L → Opened × L
  pub stream_write : ℕ → Bytes → L → ℤ × L
  pub stream_end : ℕ → L → ℤ × L
  pub stream_read : ℕ → ℕ → L → Drained × L
  pub stream_free : ℕ → L → ℤ × L
  pub inspect : Bytes → ℕ → L → Reply × L
  pub register : Bytes → Bytes → L → ℤ × L
  pub lookup : Bytes → ℕ → L → Reply × L
  pub profiles : ℕ → L → Reply × L
  pub hash_names : ℕ → L → Reply × L

-- The calls whose order and number the theorems speak of, with what they answered.
pub data Call : Type 0 where
  ciphered : ℤ → ℕ → Call
  pipe_opened : ℕ → Call
  pipe_freed : ℕ → Call
  pipe_closed : ℕ → Call
  stream_begun : ℕ → Call
  stream_wrote : ℤ → Bytes → Call
  stream_ended : ℤ → Call
  stream_drained : ℤ → Bytes → Bool → Call
  stream_freed : ℕ → Call

-- `released` lists the storage given back so far with its contents at that moment, and `calls` the
-- calls made so far, both latest first.
pub record World (L : Type 0) : Type 0 where
  pub lib : L
  pub released : List Bytes
  pub calls : List Call

-- What is thrown: `itb::Error` with its status and text, or `std::invalid_argument`.
pub data Exn : Type 0 where
  itb_error : Status → Bytes → Exn
  invalid_argument : Bytes → Exn

-- `spin` is a loop that has used up the rounds given to it.
pub data Outcome (L A : Type 0) : Type 0 where
  ret : A → World L → Outcome L A
  raise : Exn → World L → Outcome L A
  spin : World L → Outcome L A

abbrev pub M : Type 0 → Type 0 → Type 0
M L A = World L → Outcome L A

abbrev pub pure : {L A : Type 0} → A → M L A
pure a w = ret a w

abbrev pub throw : {L A : Type 0} → Exn → M L A
throw e w = raise e w

infixl 5 ◌>>=◌ ◌>>◌
abbrev pub ◌>>=◌ : {L A B : Type 0} → M L A → (A → M L B) → M L B
◌>>=◌ m f w = elim (m w) [ ret a w' ↦ f a w' | raise e w' ↦ raise e w' | spin w' ↦ spin w' ]

abbrev pub ◌>>◌ : {L B : Type 0} → M L (Unit {0}) → M L B → M L B
m >> k = m >>= λ _. k

-- A call of the library, and one that is entered into the list of calls.
abbrev pub ffi : {L A : Type 0} → (L → A × L) → M L A
ffi f w = let (a, l) = f w.lib in ret a (record w { lib = l })

abbrev pub ffi_logged : {L A : Type 0} → (A → Call) → (L → A × L) → M L A
ffi_logged entry f w =
    let (a, l) = f w.lib in ret a (record w { lib = l; calls = entry a ∷ w.calls })

-- A call that is entered as these entries, if any.
abbrev pub ffi_entered : {L A : Type 0} → (A → List Call) → (L → A × L) → M L A
ffi_entered entries f w =
    let (a, l) = f w.lib in ret a (record w { lib = l; calls = entries a ++ w.calls })

-- Storage goes back to the allocator with these contents.
abbrev pub release : {L : Type 0} → Bytes → M L (Unit {0})
release buf w = ret tt (record w { released = buf ∷ w.released })

-- A destructor runs when the scope is left, by a return or by a throw.
abbrev pub finally : {L A : Type 0} → M L A → M L (Unit {0}) → M L A
finally m dtor w = elim (m w) [
  | ret a w' ↦ (dtor >>= λ _. pure a) w'
  | raise e w' ↦ (dtor >>= λ _. throw e) w'
  | spin w' ↦ spin w'
]

abbrev pub world : {L A : Type 0} → Outcome L A → World L
world (ret a w) = w
world (raise e w) = w
world (spin w) = w
