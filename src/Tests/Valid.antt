-- ===== src/Tests/Valid.antt =====
-- Concrete files for the list of hosts that `blockParseValidServers` (rpc/glfs-operations.c) makes.
use gluster_block.Prelude.{◌≡◌, refl, some, none, [], ◌∷◌, arith, All}
use gluster_block.Enums.Key.{key_parse}
use gluster_block.Enums.Status.{status_parse}
use gluster_block.Meta.Servers.{blockhost_is_valid}
use gluster_block.Meta.{ok}
use gluster_block.Meta.Read.{render}
use gluster_block.Meta.Valid.{
  cut, valid_lines, valid_line, skip_blanks, is_member, parse_valid_servers, HasColon,
}
use gluster_block.Meta.Valid.Hosts.{IsServers, parse_valid_servers-render}
use gluster_block.Tests.Sample.{h1, lines, lines-IsLine}

lines-HasColon : All HasColon lines
unfolding cut
lines-HasColon = ((_, _, refl), ((_, _, refl), ((_, _, refl), tt)))

valid_h1 : valid_lines none lines none ≡ some (h1 ∷ [])
unfolding valid_lines valid_line key_parse blockhost_is_valid status_parse skip_blanks cut is_member
valid_h1 = refl

parse_valid_servers-render_example :
    (parse_valid_servers (some (render lines)) 4 [] none none ≡ ok (valid_lines none lines none))
    × IsServers none (valid_lines none lines none)
parse_valid_servers-render_example =
    parse_valid_servers-render none lines 4 [] none lines-IsLine lines-HasColon (omega arith) tt
