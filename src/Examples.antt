-- ===== src/Examples.antt =====
-- The theorems at concrete inputs, and runs of the code on them: the parameters of the model
-- instantiated by small functions, then each pallet, the runtime and the node.
mod Outside
mod Storages
mod Worker
mod Pings
mod Edge
mod Full
mod Events
mod Submissions
mod Chain
mod Service
mod Commands
mod System
mod Api
mod Genesis
mod Keys
mod Slots
