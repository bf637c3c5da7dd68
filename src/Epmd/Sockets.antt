-- ===== src/Epmd/Sockets.antt =====
-- impl/utils.cpp: the connection of a socket to the first endpoint of a host that takes it.
use tinch_pp.Prelude.{
  ◌≡◌, refl, Bool, true, false, List, [], ◌∷◌, ◌++◌, Option, none, some, if◌then◌else◌, arith, All,
}

-- `connect_socket`: the endpoints that the resolver gives, in order, and which of them refuse. It
-- returns the endpoint that the socket is connected to, or `none` for the exception, and the
-- endpoints that were tried.
unfoldable pub connect_socket :
    {Endpoint : Type 0} → (Endpoint → Bool) → List Endpoint → Option Endpoint × List Endpoint
connect_socket error [] = (none, [])
connect_socket error (endpoint ∷ endpoint_iterator) =
    let (connected, tried) = connect_socket error endpoint_iterator in
    if error endpoint then (connected, endpoint ∷ tried) else (some endpoint, endpoint ∷ [])

module _ {Endpoint : Type 0} (error : Endpoint → Bool) where
  abbrev Refuses : Endpoint → Type 0
  Refuses endpoint = error endpoint ≡ true

  -- The first endpoint that does not refuse is connected to, and none behind it is tried.
  connect_socket-first :
      (before : List Endpoint) (endpoint : Endpoint) (behind : List Endpoint)
      → All Refuses before
      → error endpoint ≡ false
      → connect_socket error (before ++ (endpoint ∷ behind))
        ≡ (some endpoint, before ++ (endpoint ∷ []))
  unfolding connect_socket
  connect_socket-first [] endpoint behind h e = rw e refl
  connect_socket-first (b ∷ before) endpoint behind (r, h) e =
      ground (arith, r, connect_socket-first before endpoint behind h e)

  -- Where all refuse, or there is none, all were tried and the call throws.
  connect_socket-none :
      (endpoints : List Endpoint)
      → All Refuses endpoints
      → connect_socket error endpoints ≡ (none, endpoints)
  unfolding connect_socket
  connect_socket-none [] h = refl
  connect_socket-none (b ∷ endpoints) (r, h) = ground (arith, r, connect_socket-none endpoints h)
