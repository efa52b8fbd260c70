-- ===== src/Shm/Segment/Tests.antt =====
-- A shared memory of src/shm.hpp over a system that opens and closes like a stack.
use rfdts.Base.{
  ℕ, ◌+◌, ◌≤◌, ◌≡◌, ◌≢◌, refl, ◌∙◌, sym, ap, List, [], ◌∷◌, true, ok, einval, Array, length, arith,
  ◌⊎◌, replicate, length-replicate,
}
use rfdts.Shm.Access.{Mapped}
use rfdts.Shm.Segment.{ShmApi, done, Segment, Args, construct, destroy, move}
use rfdts.Shm.Segment.Life.{Made, Failing, construct-Made, move-destroy}

-- What is open, descriptors and mappings, and the size of the one file.
record Opened : Type 0 where
  fds : List ℕ
  maps : List (ℕ × ℕ)
  file : ℕ

abbrev pop : {A : Type 0} → List A → List A
pop [] = []
pop (x ∷ xs) = xs

abbrev allocated : ℕ → Array ℕ
allocated size = record { base = 4096; cells = replicate size 0 }

done_inj : {W A : Type 0} {a b : A} {w v : W} → done a w ≡ done b v → (a ≡ b) × (w ≡ v)
done_inj e = (cc e, cc e)

abbrev open_fd : Opened → Opened
open_fd w = record w { fds = 3 ∷ w.fds }

abbrev set_size : ℕ → Opened → Opened
set_size size w = record w { file = size }

abbrev map_file : ℕ → Opened → Opened
map_file size w = record w { maps = (4096, size) ∷ w.maps }

opened_lem :
    (w : Opened) (fd : ℕ) (w' : Opened)
    → done 3 (open_fd w) ≡ done fd w'
    → (w'.fds ≡ fd ∷ w.fds) × (w'.maps ≡ w.maps)
opened_lem w fd w' e =
    let (f, s) = done_inj e in
    (sym (ap (λ z. z.fds) s) ∙ ap (λ z. z ∷ w.fds) f, sym (ap (λ z. z.maps) s))

truncated_lem :
    (size : ℕ) (w w' : Opened)
    → done tt (set_size size w) ≡ done tt w'
    → (w'.file ≡ size) × (w'.fds ≡ w.fds) × (w'.maps ≡ w.maps)
truncated_lem size w w' e =
    let (u, s) = done_inj e in
    (sym (ap (λ z. z.file) s), sym (ap (λ z. z.fds) s), sym (ap (λ z. z.maps) s))

mapped_lem :
    (size offset : ℕ) (w : Opened) (addr : Array ℕ) (w' : Opened)
    → done (allocated size) (map_file size w) ≡ done addr w'
    → (addr.base ≢ 0)
      × (offset + size ≤ w.file → length addr.cells ≡ size)
      × (w'.fds ≡ w.fds)
      × (w'.maps ≡ (addr.base, size) ∷ w.maps)
mapped_lem size offset w addr w' e =
    let (a, s) = done_inj e in
    (
      λ z. omega (arith, ap (λ r. r.base) a, z),
      λ inside. sym (ap (λ r. length r.cells) a) ∙ length-replicate size 0,
      sym (ap (λ z. z.fds) s),
      sym (ap (λ z. z.maps) s) ∙ ap (λ r. (r.base, size) ∷ w.maps) a,
    )

abbrev stacked : ShmApi
stacked = record {
  W = Opened;
  descriptors = λ w. w.fds;
  mappings = λ w. w.maps;
  file_size = λ w fd. w.file;
  last_error = λ w. einval;
  shm_open = λ name oflag mode w. done 3 (open_fd w);
  ftruncate = λ fd size w. done tt (set_size size w);
  mmap = λ size prot flags fd offset w. done (allocated size) (map_file size w);
  munmap = λ base size w. done tt (record w { maps = pop w.maps });
  msync = λ base size flags w. done tt w;
  close = λ fd w. record w { fds = pop w.fds };
  shm_unlink = λ name w. w;
  shm_open_lem = λ name oflag mode w fd w' e. opened_lem w fd w' e;
  ftruncate_lem = λ fd size w w' e. truncated_lem size w w' e;
  mmap_lem = λ size prot flags fd offset w addr w' e. mapped_lem size offset w addr w' e;
  munmap_lem = λ base size rest w e. (record w { maps = pop w.maps }, refl, refl, ap pop e);
  close_lem = λ fd rest w e. (ap pop e, refl);
  shm_unlink_lem = λ name w. (refl, refl);
}

abbrev args : Args
args = record {
  name = "/data";
  size = 8;
  oflag = 66;
  mode = 420;
  prot = record { prot_read = true; prot_write = true };
  flags = 1;
  offset = 0;
}

abbrev segment : Segment
segment = record {
  name = "/data";
  fd = 3;
  shm = record { addr = allocated 8; length = 8; cur = 0; protect = args.prot };
}

abbrev nothing : Opened
nothing = record { fds = []; maps = []; file = 0 }

abbrev eight : Opened
eight = record { fds = 3 ∷ []; maps = (4096, 8) ∷ []; file = 8 }

constructed : construct stacked args nothing ≡ ok (segment, eight)
unfolding construct
constructed = refl

construct-Made_example :
    Failing stacked args nothing (construct stacked args nothing)
    ⊎ ((m : Made stacked args nothing (construct stacked args nothing)) × Mapped m.segment.shm)
construct-Made_example = construct-Made stacked args nothing (omega arith) refl

move-destroy_example :
    (destroy stacked (move segment).1 eight ≡ ok eight)
    × ((w : Opened) × (destroy stacked (move segment).0 eight ≡ ok w)
        × (w.fds ≡ [])
        × (w.maps ≡ []))
move-destroy_example = move-destroy stacked args nothing segment eight constructed
