-- ===== src/Tests/Connections.antt =====
-- sdk/tcp.go on a host that counts its calls and fails to close.
use serviceradar_sdk_go.Base.{ℕ, suc, false, true, List, [], ◌∷◌, ◌≡◌, refl, none, some, ok, map}
use serviceradar_sdk_go.Strings.{str, pos, negsuc}
use serviceradar_sdk_go.Sockets.{SocketHost, read_context, close}
use serviceradar_sdk_go.Sockets.Closing.{
  TcpCall, reading, writing, net_reading, net_writing, closing, refused, call_all, call_all-close,
}

abbrev counting : SocketHost ℕ
counting = record {
  tcp_connect = λ addr port timeout n. (pos 7, suc n);
  tcp_read = λ handle size timeout n. ((pos 2, str "ok"), suc n);
  tcp_write = λ handle payload timeout n. (pos 1, suc n);
  tcp_close = λ handle n. (negsuc 3, suc n);
  udp_sendto = λ addr port payload timeout n. (pos 0, suc n);
}

abbrev later : List TcpCall
later =
    reading false 4 (pos 1000000)
    ∷ writing true (str "x") (pos 0)
    ∷ net_reading (some (pos 0)) 4
    ∷ net_writing none (str "x")
    ∷ closing
    ∷ []

counted_read :
    read_context counting false 4 (pos 0) (some (record { handle = 7 })) 0 ≡ (ok (2, str "ok"), 1)
unfolding read_context
counted_read = refl

closed_once :
    (close counting (some (record { handle = 7 })) 1).1 ≡ (some (record { handle = 0 }), 2)
unfolding close
closed_once = refl

call_all-close_example :
    call_all counting later (close counting (some (record { handle = 7 })) 1).1
    ≡ (map refused later, (close counting (some (record { handle = 7 })) 1).1)
call_all-close_example = call_all-close counting (some (record { handle = 7 })) 1 later
