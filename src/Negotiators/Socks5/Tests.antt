-- ===== src/Negotiators/Socks5/Tests.antt =====
-- The SOCKS5 handshake with a user name and a host name.
use flx.Base.{◌≡◌, ◌↔◌, refl, true, [], ◌∷◌, ◌++◌, some}
use flx.Base.Bytes.{Bytes, codes}
use flx.Base.Outcome.{index}
use flx.Negotiators.Buffer.{put}
use flx.Negotiators.Sample.{target}
use flx.Negotiators.Socks5.Completed.{Completes, negotiate-Completes}
use flx.Negotiators.Socks5.Handshake.{negotiate_with_auth, Credentials}
use flx.Negotiators.Socks5.Packet.{Host, build_connect_request}
use flx.Negotiators.Socks5.Reply.{wire}
use flx.Negotiators.Wire.{Wire, gave, target_port}
use flx.Proxy.Model.{ProxyAuth, socks5_user_pass}

abbrev any_name : Bytes → Host
any_name text = Host.name

abbrev auth : ProxyAuth
auth = record { username = codes "me"; password = codes "pw" }

abbrev login : Credentials
login = some (codes "me", codes "pw")

is_login : socks5_user_pass auth ≡ login
unfolding socks5_user_pass
is_login = refl

is_port : target_port target ≡ some 80
unfolding target_port
is_port = refl

abbrev packet : Bytes
packet = 5 ∷ 1 ∷ 0 ∷ 3 ∷ 3 ∷ (codes "a.b" ++ 0 ∷ 80 ∷ [])

-- The selection, the acceptance, a reply with an IPv4 address, and one byte of the target.
abbrev arriving : Bytes
arriving = 5 ∷ 2 ∷ 1 ∷ 0 ∷ 5 ∷ 0 ∷ 0 ∷ 1 ∷ 9 ∷ 9 ∷ 9 ∷ 9 ∷ 0 ∷ 80 ∷ 72 ∷ []

abbrev after : Wire
after = wire (72 ∷ []) (5 ∷ 2 ∷ 0 ∷ 2 ∷ 1 ∷ 2 ∷ (codes "me" ++ 2 ∷ (codes "pw" ++ packet))) true

negotiate-Completes_example :
    (negotiate_with_auth any_name target (some auth) (wire arriving [] true) ≡ (gave tt, after)) ↔ (
      (reply : Bytes) × Completes any_name target
        (some auth)
        login
        (codes "a.b")
        80
        packet
        is_login
        refl
        is_port
        tt
        refl
        arriving
        []
        reply
        after)
negotiate-Completes_example =
    negotiate-Completes any_name target (some auth) login (codes "a.b") 80 packet is_login refl
      is_port tt refl arriving [] after refl

connects :
    negotiate_with_auth any_name target (some auth) (wire arriving [] true) ≡ (gave tt, after)
unfolding negotiate_with_auth socks5_user_pass index target_port build_connect_request put
connects = refl
