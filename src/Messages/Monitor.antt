-- ===== src/Messages/Monitor.antt =====
-- crates/aura-net/src/messages/monitor.rs: the requests of a subscription. The sub-command codes
-- are those of crates/aura-net/src/codec/commands.rs.
pub mod Request
pub mod ResponseHeader
use aura_epics.Prelude.{ℕ, Option, some, none, Bool, true, false, not, bit_and, ◌==◌, if◌then◌else◌}

abbrev pub monitor_init : ℕ
monitor_init = 0x08

abbrev pub monitor_start : ℕ
monitor_start = 0x04

abbrev pub monitor_stop : ℕ
monitor_stop = 0x02

abbrev pub monitor_destroy : ℕ
monitor_destroy = 0x10

abbrev pub monitor_pipeline : ℕ
monitor_pipeline = 0x80

pub data MonitorSubCommand : Type 0 where
  init start start_pipeline stop destroy : MonitorSubCommand
  pipeline : ℕ → MonitorSubCommand

unfoldable pub from_u8 : ℕ → Option MonitorSubCommand
from_u8 v =
    if v == monitor_init
    then some init
    else if v == monitor_start
    then some start
    else if v == 0x44
    then some start_pipeline
    else if v == monitor_stop
    then some stop
    else if v == monitor_destroy
    then some destroy
    else if not (bit_and v monitor_pipeline == 0)
    then some (pipeline 0)
    else none

unfoldable pub to_u8 : MonitorSubCommand → ℕ
to_u8 init = monitor_init
to_u8 start = monitor_start
to_u8 start_pipeline = 0x44
to_u8 stop = monitor_stop
to_u8 destroy = monitor_destroy
to_u8 (pipeline n) = monitor_pipeline
