-- ===== src/Socket/Methods.antt =====
-- a4/rcs_t.cc, the other methods of a socket: its constructor, `connect`, `bind`, `getSockName` and
-- `listen`.
use ece.Prelude.{
  length, get_or, drop, replicate, of_le16, ℕ, true, false, Option, List, [], ◌∷◌, ◌++◌, ℤ, pos,
}
use ece.Buffer.{new_buffer}
use ece.Net.{Addr, Os, World, tick}
use ece.Net.Bind.{mybind}
use ece.Socket.Low.{set_endpoint, recv_timeout}
use ece.Socket.Sender.{send}
use ece.Socket.Receiver.{recv}
use ece.Socket.Monad.{Socket, ok, M, pure, ◌>>=◌, ◌>>◌, modify_sock}

module _ (os : Os) where
  -- The text that `connect` sends, and the 16 bytes of its buffer behind a reply `bytes`.
  abbrev pub hello : List ℕ
  hello = 114 ∷ 99 ∷ 115 ∷ 32 ∷ 99 ∷ 111 ∷ 110 ∷ 110 ∷ 101 ∷ 99 ∷ 116 ∷ []

  abbrev pub overlay : List ℕ → List ℕ
  overlay bytes = bytes ++ drop (length bytes) (hello ++ replicate 5 0)

  -- `rcs_t::connect`
  unfoldable pub connect : Addr → M ℤ
  connect addr = do
    modify_sock (set_endpoint addr)
    _ ← send os hello
    r ← recv os 16
    modify_sock λ s.
        set_endpoint
          (record (s.end_point) {
            port = of_le16 (get_or (overlay (r.0)) 0 0) (get_or (overlay (r.0)) 1 0);
          })
          s
    pure (pos 0)

  -- `rcs_t::bind` and `rcs_t::getSockName`
  unfoldable pub bind_socket : Option Addr → M (ℤ × Option Addr)
  bind_socket addr s =
      let (r, a, w) = mybind os s.sock.ucp_socket addr s.world in
      ok ((r, a), record s { world = w })

  unfoldable pub get_sock_name : M (ℤ × Addr)
  get_sock_name s =
      ok (os.getsockname s.world.clock s.sock.ucp_socket, record s { world = tick s.world })

  -- `rcs_t::listen`
  unfoldable pub listen : M (Unit {0})
  listen = modify_sock (λ s. record s { is_listener = true })

  -- `rcs_t::rcs_t`. `garbage` is what the members that are not initialised hold.
  unfoldable pub new_socket : Addr → World → Socket × World
  new_socket garbage w =
      let fd = os.socket w.clock in
      (
        record {
          ucp_socket = fd;
          is_listener = false;
          end_point = garbage;
          buffer = new_buffer;
          send_seqnum = 0;
          recv_seqnum = 0;
          has_endpoint = false;
          from_endpoint = garbage;
          is_closing = false;
        },
        record (tick w) { timeouts = (fd, recv_timeout) ∷ w.timeouts },
      )
