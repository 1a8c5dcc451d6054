-- ===== src/Net/Tests.antt =====
-- Examples of the theorems on the channel and on `mybind`.
use ece.Prelude.{◌≡◌, refl, some, [], ◌∷◌, arith, pos}
use ece.Net.{Addr, Os, World}
use ece.Net.Sample.{calm, world_with, any_port, host}
use ece.Net.Ucp.{ucp_send_to, SendsOnly, ucp_send_to-SendsOnly}
use ece.Net.Bind.{htons, ntohs, mybind}
use ece.Net.Ports.{Bound, mybind-Bound}

third_port :
    mybind calm (pos 3) (some any_port) (world_with [])
    ≡ (pos 0, some (record any_port { port = htons 10002 }), record (world_with []) { clock = 3 })
unfolding mybind htons ece.Net.Bind.bind_in_range ece.Net.Bind.bind_from
third_port = refl

ucp_send_to-SendsOnly_example :
    SendsOnly
      (pos 3)
      (1 ∷ 2 ∷ [])
      host
      (world_with [])
      (ucp_send_to calm (pos 3) (1 ∷ 2 ∷ []) host (world_with [])).1
ucp_send_to-SendsOnly_example =
    ucp_send_to-SendsOnly calm (pos 3) (1 ∷ 2 ∷ []) host (world_with []) (omega arith)

mybind-Bound_example :
    (a : Addr) × (v : World) × (mybind calm (pos 3) (some any_port) (world_with [])
      ≡ ((mybind calm (pos 3) (some any_port) (world_with [])).0, some a, v))
    × Bound calm
        (pos 3)
        any_port
        (world_with [])
        ((mybind calm (pos 3) (some any_port) (world_with [])).0, a, v)
mybind-Bound_example = mybind-Bound calm (pos 3) any_port (world_with []) refl refl
