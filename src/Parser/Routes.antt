-- ===== src/Parser/Routes.antt =====
-- The route table of `ParseTelemetryData` in internal/parser/telemetry_parser.go.
use ztelem.Prelude.{
  Bool, true, false, Bytes, List, [], ◌∷◌, ◌&&◌, ◌==◌, Option, none, some, codes, beq,
  if◌then◌else◌,
}

-- The methods that the table names.
pub data Handler : Type 0 where
  parse_components_data : Handler
  parse_component_transceiver_state : Handler
  parse_component_cpu_state : Handler
  parse_component_linecard_state : Handler
  parse_component_power_supply_state : Handler
  parse_component_fan_state : Handler
  parse_component_memory_state : Handler
  parse_component_storage_state : Handler
  parse_component_temperature_state : Handler
  parse_component_state : Handler
  parse_subinterface_counters : Handler
  parse_subinterface_zte_state : Handler
  parse_subinterface_state : Handler
  parse_interface_counters : Handler
  parse_interface_zte_state : Handler
  parse_interface_state : Handler

-- `routeEntry`
pub record Route : Type 0 where
  pub path : Bytes  -- the source's `prefix`
  pub handler : Handler
  pub exact : Bool

-- `strings.HasPrefix(s, prefix)`
unfoldable pub has_prefix : Bytes → Bytes → Bool
has_prefix s [] = true
has_prefix [] (b ∷ p) = false
has_prefix (a ∷ s) (b ∷ p) = (a == b) && has_prefix s p

-- The guard of the loop over the table.
unfoldable pub matches : Route → Bytes → Bool
matches route sensor_path =
    if route.exact then beq sensor_path route.path else has_prefix sensor_path route.path

-- The loop: the first entry that is not skipped.
unfoldable pub find_route : Bytes → List Route → Option Route
find_route sensor_path [] = none
find_route sensor_path (route ∷ routes) =
    if matches route sensor_path then some route else find_route sensor_path routes

unfoldable pub routes : List Route
routes =
    record {
      path = codes "oc-platform:components/component";
      handler = parse_components_data;
      exact = true;
    }
    ∷ record {
      path = codes "oc-platform:components/component/oc-transceiver:transceiver/state";
      handler = parse_component_transceiver_state;
      exact = false;
    }
    ∷ record {
      path = codes "oc-platform:components/component/cpu/oc-cpu:utilization/state";
      handler = parse_component_cpu_state;
      exact = false;
    }
    ∷ record {
      path = codes "oc-platform:components/component/oc-linecard:linecard/state";
      handler = parse_component_linecard_state;
      exact = false;
    }
    ∷ record {
      path = codes "oc-platform:components/component/power-supply/state";
      handler = parse_component_power_supply_state;
      exact = false;
    }
    ∷ record {
      path = codes "oc-platform:components/component/fan/state";
      handler = parse_component_fan_state;
      exact = false;
    }
    ∷ record {
      path = codes "oc-platform:components/component/state/memory";
      handler = parse_component_memory_state;
      exact = false;
    }
    ∷ record {
      path = codes "oc-platform:components/component/state/storage";
      handler = parse_component_storage_state;
      exact = false;
    }
    ∷ record {
      path = codes "oc-platform:components/component/state/temperature";
      handler = parse_component_temperature_state;
      exact = false;
    }
    ∷ record {
      path = codes "oc-platform:components/component/state";
      handler = parse_component_state;
      exact = false;
    }
    ∷ record {
      path = codes "oc-if:interfaces/interface/subinterfaces/subinterface/state/counters";
      handler = parse_subinterface_counters;
      exact = false;
    }
    ∷ record {
      path = codes "oc-if:interfaces/interface/subinterfaces/subinterface/zte-if:state-period";
      handler = parse_subinterface_zte_state;
      exact = false;
    }
    ∷ record {
      path = codes "oc-if:interfaces/interface/subinterfaces/subinterface/state";
      handler = parse_subinterface_state;
      exact = false;
    }
    ∷ record {
      path = codes "oc-if:interfaces/interface/state/counters";
      handler = parse_interface_counters;
      exact = false;
    }
    ∷ record {
      path = codes "oc-if:interfaces/interface/zte-if:state-period";
      handler = parse_interface_zte_state;
      exact = false;
    }
    ∷ record {
      path = codes "oc-if:interfaces/interface/state";
      handler = parse_interface_state;
      exact = false;
    }
    ∷ []
