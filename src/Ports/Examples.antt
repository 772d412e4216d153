-- ===== src/Ports/Examples.antt =====
-- A port specification.
use nett.Prelude.{Ensures}
use nett.Text.{codes}
use nett.Ports.{parse_ports}
use nett.Ports.Sorted.{AnyError, IsPortList, parse_ports-IsPortList}

parse_ports-IsPortList_example : Ensures AnyError IsPortList (parse_ports (codes "443, 20-25,443"))
parse_ports-IsPortList_example = parse_ports-IsPortList (codes "443, 20-25,443")
