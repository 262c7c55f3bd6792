-- ===== src/Parser/Platform/Agreement.antt =====
-- The two ways in which internal/parser/telemetry_parser.go copies a part of a component: in
-- `parseComponentsData` and in the handler of the part's own path.
use ztelem.Proto.Platform
use ztelem.Proto.Platform.{ComponentInfo, OpticalPower}
