-- ===== src/Core/Listener/Binding.antt =====
-- The loop of src/core/listener.cpp over the addresses of a host.
use dariyanaap.Prelude.{ℕ, ◌+◌, ◌≡◌, ◌⊎◌, refl, List, [], ◌∷◌, true, inl, inr, sym, subst, arith}
use dariyanaap.Prelude.Text.{Bytes, codes}
use dariyanaap.Core.Errors.{
  error, usage_error, invalid_endpoint, timed_out, io_error, bad_optional_access, is_io_error,
  Result, ok, err, ◌>>=◌, ◌>>◌, IoOnly,
}
use dariyanaap.Core.Address.{SocketAddress, inet, inet6, other, with_port}
use dariyanaap.Core.Socket.{Sys, succeeded, failed, checked}
use dariyanaap.Core.Listener.{
  Attempt, Listener, checked_for, bind_one, port_of, bound_port, try_bind, tried, bind_from,
  bind_first_that_works,
}

-- The address is bound and listens: the socket was created, each call on it succeeded, `bind` and
-- `listen` among them, and the listener has the port that the system gave, and that address with it.
abbrev pub Listens : SocketAddress → Attempt → Listener → Type 0
Listens address a l =
    (a.creating ≡ succeeded)
    × (a.no_sigpipe ≡ succeeded)
    × (a.reuse ≡ succeeded)
    × (a.binding ≡ succeeded)
    × (a.listening ≡ succeeded)
    × (a.naming ≡ succeeded)
    × (port_of a.name ≡ ok l.port)
    × (with_port address l.port ≡ ok l.address)

-- No listener comes of it.
abbrev pub IsRefused : SocketAddress → Attempt → Type 0
IsRefused address a = (l : Listener) → ¬ Listens address a l

abbrev Tried : SocketAddress → Attempt → Result Listener → Type 0
Tried address a (ok l) = Listens address a l
Tried address a (err e) = (is_io_error e ≡ true) × IsRefused address a

with_port-IoOnly : (address : SocketAddress) (port : ℕ) → IoOnly (with_port address port)
unfolding with_port
with_port-IoOnly (inet host old) port = tt
with_port-IoOnly (inet6 host old) port = tt
with_port-IoOnly (other family) port = refl

port_of-IoOnly : (name : SocketAddress) → IoOnly (port_of name)
port_of-IoOnly (inet host port) = tt
port_of-IoOnly (inet6 host port) = tt
port_of-IoOnly (other family) = refl

module _ (strerror : ℕ → Bytes) (str : SocketAddress → Bytes) where
  module _ (address : SocketAddress) (a : Attempt) where
    -- A check within an attempt: where it fails, the attempt ends with its error.
    checked_for-Tried :
        (s : Sys) (doing : Bytes) (around : Result (Unit {0}) → Result Listener)
        → ((message : Bytes) → around (err (io_error message)) ≡ err (io_error message))
        → ((l : Listener) → Listens address a l → s ≡ succeeded)
        → (s ≡ succeeded → Tried address a (around (ok tt)))
        → Tried address a (around (checked_for strerror str s doing address))
    checked_for-Tried succeeded doing around ends needs go = go refl
    checked_for-Tried (failed code) doing around ends needs go =
        subst (Tried address a) (sym (ends _)) (refl, λ l h. absurd (cc (needs l h)))

    checked-Tried :
        (s : Sys) (doing : Bytes) (around : Result (Unit {0}) → Result Listener)
        → ((message : Bytes) → around (err (io_error message)) ≡ err (io_error message))
        → ((l : Listener) → Listens address a l → s ≡ succeeded)
        → (s ≡ succeeded → Tried address a (around (ok tt)))
        → Tried address a (around (checked strerror s doing))
    checked-Tried succeeded doing around ends needs go = go refl
    checked-Tried (failed code) doing around ends needs go =
        subst (Tried address a) (sym (ends _)) (refl, λ l h. absurd (cc (needs l h)))

    with_port-Tried :
        (port : ℕ) (r : Result SocketAddress)
        → with_port address port ≡ r
        → IoOnly r
        → port_of a.name ≡ ok port
        → ((n : SocketAddress)
            → with_port address port ≡ ok n
            → Listens address a (record { address = n; port = port }))
        → Tried address a (r >>= (λ n. ok (record { address = n; port = port })))
    with_port-Tried port (ok n) e io named listens = listens n e
    with_port-Tried port (err f) e io named listens = (io, refused)
      where
        refused : IsRefused address a
        refused l (_, _, _, _, _, _, h, w) =
            let same : l.port ≡ port = ground (arith, h, named) in
            absurd (cc (subst (λ p. with_port address p ≡ ok l.address) same w, e))

    port_of-Tried :
        (r : Result ℕ)
        → port_of a.name ≡ r
        → IoOnly r
        → ((port : ℕ) (n : SocketAddress)
            → port_of a.name ≡ ok port
            → with_port address port ≡ ok n
            → Listens address a (record { address = n; port = port }))
        → Tried address a (
            r >>= (λ port.
              with_port address port >>= (λ n. ok (record { address = n; port = port }))))
    port_of-Tried (ok port) e io listens =
        with_port-Tried port (with_port address port) refl (with_port-IoOnly address port) e
          (λ n. listens port n e)
    port_of-Tried (err f) e io listens = (io, λ l (_, _, _, _, _, _, h, w). absurd (cc (h, e)))

    try_bind-Tried : Tried address a (try_bind strerror str address a)
    unfolding try_bind bind_one bound_port
    try_bind-Tried =
        let c2 = checked strerror a.no_sigpipe (codes "setsockopt(SO_NOSIGPIPE): ") in
        let c3 = checked strerror a.reuse (codes "setsockopt(SO_REUSEADDR): ") in
        let c4 = checked_for strerror str a.binding (codes "cannot bind ") address in
        let c5 = checked_for strerror str a.listening (codes "cannot listen on ") address in
        let rest : Result ℕ → Result Listener = λ name. name >>= (λ port.
          with_port address port >>= (λ n. ok (record { address = n; port = port }))) in
        let asked = checked strerror a.naming (codes "getsockname: ") >> port_of a.name in
        checked_for-Tried a.creating (codes "cannot create a socket for ")
          (λ m. (m >> (c2 >> (c3 >> (c4 >> c5)))) >> rest asked) (λ _. refl) (λ l h. h.0)
          λ p1.
            checked-Tried a.no_sigpipe (codes "setsockopt(SO_NOSIGPIPE): ")
              (λ m. (m >> (c3 >> (c4 >> c5))) >> rest asked) (λ _. refl)
              (λ l (_, p, _, _, _, _, _, _). p)
              λ p2.
                checked-Tried a.reuse (codes "setsockopt(SO_REUSEADDR): ")
                  (λ m. (m >> (c4 >> c5)) >> rest asked) (λ _. refl)
                  (λ l (_, _, p, _, _, _, _, _). p)
                  λ p3.
                    checked_for-Tried a.binding (codes "cannot bind ")
                      (λ m. (m >> c5) >> rest asked) (λ _. refl) (λ l (_, _, _, p, _, _, _, _). p)
                      λ p4.
                        checked_for-Tried a.listening (codes "cannot listen on ")
                          (λ m. m >> rest asked) (λ _. refl) (λ l (_, _, _, _, p, _, _, _). p)
                          λ p5.
                            checked-Tried a.naming (codes "getsockname: ")
                              (λ m. rest (m >> port_of a.name)) (λ _. refl)
                              (λ l (_, _, _, _, _, p, _, _). p)
                              λ p6.
                                port_of-Tried (port_of a.name) refl (port_of-IoOnly a.name)
                                  (λ port n h w. (p1, p2, p3, p4, p5, p6, h, w))

  -- The first address that listens is the one that is taken, and where none does, the error is an
  -- `IoError`.
  abbrev pub FirstWorks : (ℕ → Attempt) → ℕ → List SocketAddress → Result Listener → Type 0
  FirstWorks system i [] r = (message : Bytes) × (r ≡ err (io_error message))
  FirstWorks system i (address ∷ rest) r =
      ((l : Listener) × (r ≡ ok l) × Listens address (system i) l)
      ⊎ (IsRefused address (system i) × FirstWorks system (i + 1) rest r)

  tried-FirstWorks :
      (system : ℕ → Attempt) (i : ℕ) (address : SocketAddress) (rest : List SocketAddress)
      (failures : Bytes) (t : Result Listener)
      → Tried address (system i) t
      → ((f : Bytes)
          → FirstWorks system (i + 1) rest (bind_from strerror str system (i + 1) rest f))
      → FirstWorks system i
          (address ∷ rest)
          (tried strerror str t failures (bind_from strerror str system (i + 1) rest))
  tried-FirstWorks system i address rest failures (ok l) h next = inl (l, refl, h)
  tried-FirstWorks system i address rest failures (err (io_error m)) (io, h) next = inr (h, next _)
  tried-FirstWorks system i address rest failures (err (timed_out m)) (io, h) next = inr (h, next _)
  tried-FirstWorks system i address rest failures (err (error m)) (io, h) next = absurd (cc io)
  tried-FirstWorks system i address rest failures (err (usage_error m)) (io, h) next =
      absurd (cc io)
  tried-FirstWorks system i address rest failures (err (invalid_endpoint m)) (io, h) next =
      absurd (cc io)
  tried-FirstWorks system i address rest failures (err bad_optional_access) (io, h) next =
      absurd (cc io)

  bind_from-FirstWorks :
      (system : ℕ → Attempt) (i : ℕ) (addresses : List SocketAddress) (failures : Bytes)
      → FirstWorks system i addresses (bind_from strerror str system i addresses failures)
  unfolding bind_from
  bind_from-FirstWorks system i [] failures = (failures, refl)
  bind_from-FirstWorks system i (address ∷ rest) failures =
      tried-FirstWorks system i address rest failures (try_bind strerror str address (system i))
        (try_bind-Tried address (system i)) (bind_from-FirstWorks system (i + 1) rest)

  -- Whatever the system does, the addresses are tried in turn up to the first for which every call
  -- succeeds, `bind` and `listen` among them, and which the system names a port for; the listener then
  -- tells that port, and that address with it. Where there is none, an `IoError` is thrown, and nothing
  -- else is ever thrown.
  pub bind_first_that_works-FirstWorks :
      (system : ℕ → Attempt) (addresses : List SocketAddress)
      → FirstWorks system 0 addresses (bind_first_that_works strerror str system addresses)
  unfolding bind_first_that_works
  bind_first_that_works-FirstWorks system addresses = bind_from-FirstWorks system 0 addresses []
