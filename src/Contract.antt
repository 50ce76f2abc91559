-- ===== src/Contract.antt =====
-- contract/vtt/v1: the messages that the core reads and writes, as the generated Go structs hold
-- them. A message field may be nil and is an `Option` where the code tells nil apart; a message in a
-- oneof is not nil, as every decoded one. Times, `module_data` and what else no modelled code reads
-- are left out.
pub mod Event
pub mod Command
