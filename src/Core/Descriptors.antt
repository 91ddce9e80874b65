-- ===== src/Core/Descriptors.antt =====
-- The class of src/core/socket.hpp and src/core/socket.cpp as an owner: which object holds which
-- descriptor, and which descriptors are open. An object that holds none has -1 in the code.
pub mod Ownership
use dariyanaap.Prelude.{
  ℕ, zero, suc, ◌+◌, ◌≡◌, List, [], ◌∷◌, Option, none, some, Bool, true, false, ◌==◌, if◌then◌else◌,
  get_elem?, set,
}

-- `live` are the descriptors that are open, `released` those that `release` has handed out, and
-- `double_closes` how often a descriptor was closed that was not open.
pub record Owners : Type 0 where
  pub objects : List (Option ℕ)
  pub live : List ℕ
  pub released : List ℕ
  pub double_closes : ℕ

abbrev pub is_live : ℕ → List ℕ → Bool
is_live fd [] = false
is_live fd (other ∷ live) = if other == fd then true else is_live fd live

abbrev pub without : ℕ → List ℕ → List ℕ
without fd [] = []
without fd (other ∷ live) = let rest = without fd live in if other == fd then live else other ∷ rest

-- `::close`
unfoldable pub kernel_close : ℕ → Owners → Owners
kernel_close fd s =
    if is_live fd s.live
    then record s { live = without fd s.live }
    else record s { double_closes = s.double_closes + 1 }

abbrev pub held : Option (Option ℕ) → Option ℕ
held none = none
held (some o) = o

-- The descriptor of the object number i; there is none past the objects.
abbrev pub fd_of : Owners → ℕ → Option ℕ
fd_of s i = held (get_elem? s.objects i)

unfoldable pub put : ℕ → Option ℕ → Owners → Owners
put i o s = record s { objects = set s.objects i o }

-- `Socket(int fd)`: a new object for a descriptor that the system has just opened.
unfoldable pub construct : ℕ → Owners → Owners
construct fd s = record s { objects = some fd ∷ s.objects; live = fd ∷ s.live }

abbrev pub closing : Option ℕ → ℕ → Owners → Owners
closing none i s = s
closing (some fd) i s = put i none (kernel_close fd s)

-- `close`, which is the destructor too.
unfoldable pub close : ℕ → Owners → Owners
close i s = closing (fd_of s i) i s

-- `Socket(Socket&& other)`: a new object, and `other` is emptied.
unfoldable pub move_construct : ℕ → Owners → Owners
unfolding put
move_construct j s = record s { objects = fd_of s j ∷ set s.objects j none }

abbrev pub moved : ℕ → ℕ → Owners → Owners
moved i j s = put j none (put i (fd_of s j) s)

-- `operator=(Socket&& other)`
unfoldable pub move_assign : ℕ → ℕ → Owners → Owners
unfolding close put
move_assign i j s = if i == j then s else moved i j (close i s)

abbrev pub releasing : Option ℕ → ℕ → Owners → Owners
releasing none i s = s
releasing (some fd) i s = put i none (record s { released = fd ∷ s.released })

unfoldable pub release : ℕ → Owners → Owners
release i s = releasing (fd_of s i) i s

-- What a program does with its sockets, one call after the other. The system opens a descriptor
-- only under a number that is not in use.
pub data Step (s : Owners) : Owners → Type 0 where
  opens : (fd : ℕ) → is_live fd s.live ≡ false → Step s (construct fd s)
  moves : (j : ℕ) → Step s (move_construct j s)
  assigns : (i j : ℕ) (o : Option ℕ) → get_elem? s.objects i ≡ some o → Step s (move_assign i j s)
  closes : (i : ℕ) → Step s (close i s)
  releases : (i : ℕ) → Step s (release i s)

pub data Reach (s : Owners) : Owners → Type 0 where
  here : Reach s s
  next : {t u : Owners} → Reach s t → Step t u → Reach s u

abbrev pub no_owners : Owners
no_owners = record { objects = []; live = []; released = []; double_closes = 0 }
