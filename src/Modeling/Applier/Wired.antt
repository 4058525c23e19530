-- ===== src/Modeling/Applier/Wired.antt =====
-- Apply of the applier as BuildModeling makes it, internal/app/build/build_modeling.go: its write tool
-- is the program's, behind the adapter and the security executor.
use qemu_agent.Text.{Text}
use qemu_agent.Files.{Files}
use qemu_agent.Modeling.Applier.Landing.{Landing}
