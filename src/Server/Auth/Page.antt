-- ===== src/Server/Auth/Page.antt =====
-- The token that a page carries lets the requests of the page in.
use wireguard_bgp.Text.{Text}
use wireguard_bgp.Server.Auth.{Auth}
