-- ===== src/Network/Server/Ordered.antt =====
-- `operator==` and `operator<` of `CServer` agree.
use znc_playground.Network.Server.{Server, server_eq, server_lt}
use znc_playground.StringMap.{lt_bytes, lt_bytes_asymm}
use znc_playground.Prelude.{[], ◌∷◌, ◌≡◌, refl, false, ◌&&◌, ◌||◌, not, arith, Bytes, bytes_eq}

bytes_eq-lt_bytes : (s t : Bytes) → bytes_eq s t ≡ not (lt_bytes s t || lt_bytes t s)
unfolding bytes_eq lt_bytes
bytes_eq-lt_bytes [] [] = refl
bytes_eq-lt_bytes [] (y ∷ t) = refl
bytes_eq-lt_bytes (x ∷ s) [] = refl
bytes_eq-lt_bytes (x ∷ s) (y ∷ t) = ground (arith, bytes_eq-lt_bytes s t)

not_both : (s t : Bytes) → (lt_bytes s t && lt_bytes t s) ≡ false
not_both s t = ground (arith, lt_bytes_asymm s t)

-- Of two servers, either both are equal, or one is smaller and not both are: `operator==` is true where
-- `operator<` holds in neither direction, and `operator<` never holds in both.
pub server_eq-server_lt :
    (s o : Server)
    → (server_eq s o ≡ not (server_lt s o || server_lt o s))
      × ((server_lt s o && server_lt o s) ≡ false)
unfolding server_eq server_lt
server_eq-server_lt s o = ground (
  arith,
  bytes_eq-lt_bytes s.name o.name,
  not_both s.name o.name,
  bytes_eq-lt_bytes s.pass o.pass,
  not_both s.pass o.pass,
)
