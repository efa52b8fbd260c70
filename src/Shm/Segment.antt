-- ===== src/Shm/Segment.antt =====
-- The constructors, the destructor and `sync` of src/shm.hpp, over the system's calls as a parameter:
-- the shared memory of the parent module with its name and its descriptor.
pub mod Life
mod Tests
use Prim.Native.String.{String}
use rfdts.Base.{
  ℕ, ◌+◌, ◌≤◌, ◌≡◌, ◌≢◌, List, [], ◌∷◌, Bool, true, false, Outcome, ok, exited, errno, Errno,
  einval, Array, length, null, if◌then◌else◌, ◌==◌, ◌>>=◌,
}
use rfdts.Shm
use rfdts.Shm.{PosixShm, Protection}

-- A system call succeeds with a result, or fails.
pub data Result (W A : Type 0) : Type 0 where
  done : A → W → Result W A
  failed : W → Result W A

-- The system's calls, with what the manual says of the descriptors, of the mappings, each with its
-- size in bytes, and of the sizes of the files.
pub record ShmApi : Type 1 where
  pub W : Type 0
  pub descriptors : W → List ℕ
  pub mappings : W → List (ℕ × ℕ)
  pub file_size : W → ℕ → ℕ  -- Of the file that a descriptor stands for.
  pub last_error : W → Errno  -- `errno`
  pub shm_open : String → ℕ → ℕ → W → Result W ℕ
  pub ftruncate : ℕ → ℕ → W → Result W (Unit {0})
  pub mmap : ℕ → Protection → ℕ → ℕ → ℕ → W → Result W (Array ℕ)
  pub munmap : ℕ → ℕ → W → Result W (Unit {0})
  pub msync : ℕ → ℕ → ℕ → W → Result W (Unit {0})
  pub close : ℕ → W → W
  pub shm_unlink : String → W → W
  pub shm_open_lem :
      (name : String) (oflag mode : ℕ) (w : W) (fd : ℕ) (w' : W)
      → shm_open name oflag mode w ≡ done fd w'
      → (descriptors w' ≡ fd ∷ descriptors w) × (mappings w' ≡ mappings w)
  pub ftruncate_lem :
      (fd size : ℕ) (w w' : W)
      → ftruncate fd size w ≡ done tt w'
      → (file_size w' fd ≡ size) × (descriptors w' ≡ descriptors w) × (mappings w' ≡ mappings w)
  -- A mapping is not at address 0, and all its bytes can be used if the file has as many from the
  -- offset on.
  pub mmap_lem :
      (size : ℕ) (prot : Protection) (flags fd offset : ℕ) (w : W) (addr : Array ℕ) (w' : W)
      → mmap size prot flags fd offset w ≡ done addr w'
      → (addr.base ≢ 0)
        × (offset + size ≤ file_size w fd → length addr.cells ≡ size)
        × (descriptors w' ≡ descriptors w)
        × (mappings w' ≡ (addr.base, size) ∷ mappings w)
  -- The last mapping can be released, by its address and the size that it was made with, and so
  -- can the last descriptor.
  pub munmap_lem :
      (base size : ℕ) (rest : List (ℕ × ℕ)) (w : W)
      → mappings w ≡ (base, size) ∷ rest
      → (w' : W) × (munmap base size w ≡ done tt w')
        × (descriptors w' ≡ descriptors w)
        × (mappings w' ≡ rest)
  pub close_lem :
      (fd : ℕ) (rest : List ℕ) (w : W)
      → descriptors w ≡ fd ∷ rest
      → (descriptors (close fd w) ≡ rest) × (mappings (close fd w) ≡ mappings w)
  pub shm_unlink_lem :
      (name : String) (w : W)
      → (descriptors (shm_unlink name w) ≡ descriptors w)
        × (mappings (shm_unlink name w) ≡ mappings w)

pub record Segment : Type 0 where
  pub name : String
  pub fd : ℕ
  pub shm : PosixShm

-- The arguments of the constructors.
pub record Args : Type 0 where
  pub name : String
  pub size : ℕ
  pub oflag : ℕ
  pub mode : ℕ
  pub prot : Protection
  pub flags : ℕ
  pub offset : ℕ

abbrev pub is_einval : Errno → Bool
is_einval Errno.einval = true
is_einval _ = false

module _ (api : ShmApi) where
  open api use {W, last_error, shm_open, ftruncate, mmap, munmap, msync, close, shm_unlink}

  -- PEIE ends the program with `errno`.
  abbrev pub fails : {A : Type 0} → W → Outcome A
  fails w = exited (errno (last_error w))

  abbrev pub mapped_at : Args → ℕ → Result W (Array ℕ) → Outcome (Segment × W)
  mapped_at args fd (failed w) = fails (close fd w)
  mapped_at args fd (done addr w) = ok (
    record {
      name = args.name;
      fd = fd;
      shm = record { addr = addr; length = args.size; cur = 0; protect = args.prot };
    },
    w,
  )

  abbrev pub truncated : Args → ℕ → Result W (Unit {0}) → Outcome (Segment × W)
  truncated args fd (failed w) = fails (close fd w)
  truncated args fd (done u w) =
      mapped_at args fd (mmap args.size args.prot args.flags fd args.offset w)

  abbrev pub opened : Args → Result W ℕ → Outcome (Segment × W)
  opened args (failed w) = fails w
  opened args (done fd w) = truncated args fd (ftruncate fd args.size w)

  -- The three constructors differ in how they take the name.
  unfoldable pub construct : Args → W → Outcome (Segment × W)
  construct args w = opened args (shm_open args.name args.oflag args.mode w)

  abbrev pub unmapped : Segment → Result W (Unit {0}) → Outcome W
  unmapped s (failed w) = fails w
  unmapped s (done u w) = ok (shm_unlink s.name (close s.fd w))

  unfoldable pub destroy : Segment → W → Outcome W
  destroy s w =
      let released = unmapped s (munmap s.shm.addr.base s.shm.length w) in
      if s.shm.addr.base == 0 then ok w else released

  -- The result is whether the call succeeded.
  abbrev pub synced : Result W (Unit {0}) → Outcome (Bool × W)
  synced (done u w) = ok (true, w)
  synced (failed w) = if is_einval (last_error w) then fails w else ok (false, w)

  unfoldable pub sync : ℕ → Segment → W → Outcome (Bool × W)
  sync flags s w = synced (msync s.shm.addr.base s.shm.length flags w)

-- The move constructor: name and descriptor are copied.
unfoldable pub move : Segment → Segment × Segment
unfolding Shm.move
move s = let moved = Shm.move s.shm in (record s { shm = moved.0 }, record s { shm = moved.1 })
