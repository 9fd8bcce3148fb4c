-- ===== src/Client/Symbols/Table.antt =====
-- The upload of a symbol table from a device with memory.
use ads_go.Client.Commands.Memory.{Memory}
