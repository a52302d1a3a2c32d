-- ===== src/Events/Origins.antt =====
-- What the jobs of user activities, security events and transaction events find out about the
-- client of an event: the lookups of its user agent and of its address, the same in the three
-- handlers of internal/jobs.
use insight_collector.Prelude.{
  ℕ, String, Bool, ◌&&◌, ◌||◌, not, Option, none, some, ◌==◌, if◌then◌else◌, ◌≡◌, refl, arith,
  text_cases, Option-cases, inl, inr, ap, ◌∙◌, sym,
}
use insight_collector.GeoIp.{GeoLocation, AsnInfo}
use insight_collector.UserAgent.{FastDeviceInfo, device_name}
use insight_collector.Events.{Floats}

-- What the packages of user agents and of MaxMind answer: Detect, LookupCityFromString and
-- LookupASNFromString; strings.ToUpper and strings.ToLower, and the format of coordinates
pub record Places : Type 0 where
  pub agent_of : String → FastDeviceInfo
  pub city_of : String → Option GeoLocation
  pub network_of : String → Option AsnInfo
  pub to_upper : String → String
  pub to_lower : String → String
  pub coordinates : ℕ → ℕ → String

-- The fields that the lookups set
pub record Origin : Type 0 where
  pub browser : String
  pub browser_version : String
  pub device_type : String
  pub is_bot : Bool
  pub os : String
  pub os_version : String
  pub geo_country : String
  pub geo_city : String
  pub geo_timezone : String
  pub geo_postal : String
  pub geo_coordinates : String
  pub geo_isp : String

unfoldable pub of_agent : FastDeviceInfo → Origin
of_agent info = record {
  browser = info.browser;
  browser_version = info.browser_version;
  device_type = device_name info.device_type;
  is_bot = info.is_bot;
  os = info.os;
  os_version = info.os_version;
  geo_country = "";
  geo_city = "";
  geo_timezone = "";
  geo_postal = "";
  geo_coordinates = "";
  geo_isp = "";
}

unfoldable pub with_city : Floats → Places → Option GeoLocation → Origin → Origin
with_city floats places none o = o
with_city floats places (some geo) o = record o {
  geo_country = places.to_upper geo.country_code;
  geo_city = places.to_lower geo.city;
  geo_timezone = geo.timezone;
  geo_postal = geo.postal_code;
  geo_coordinates =
      if not (floats.is_zero geo.latitude) && not (floats.is_zero geo.longitude)
      then places.coordinates geo.latitude geo.longitude
      else o.geo_coordinates;
}

unfoldable pub with_asn : Option AsnInfo → Origin → Origin
with_asn none o = o
with_asn (some info) o =
    if not (info.organization == "") then record o { geo_isp = info.organization } else o

unfoldable pub origin_of : Floats → Places → String → String → Origin
origin_of floats places user_agent ip_address =
    let o = of_agent (places.agent_of user_agent) in
    if not (ip_address == "")
    then with_asn (places.network_of ip_address)
        (with_city floats places (places.city_of ip_address) o)
    else o

-- What a field shows of the city of an address, and of its network
abbrev pub city_field : Places → String → (GeoLocation → String) → String
city_field places ip_address field =
    if ip_address == ""
    then ""
    else elim (places.city_of ip_address) [ none ↦ "" | some geo ↦ field geo ]

abbrev pub network_field : Places → String → (AsnInfo → String) → String
network_field places ip_address field =
    if ip_address == ""
    then ""
    else elim (places.network_of ip_address) [ none ↦ "" | some info ↦ field info ]

-- The coordinates of a city, unless one of them is zero
abbrev pub coordinates_of : Floats → Places → GeoLocation → String
coordinates_of floats places geo =
    if floats.is_zero geo.latitude || floats.is_zero geo.longitude
    then ""
    else places.coordinates geo.latitude geo.longitude

-- The origin of an event, field by field
abbrev pub fields_of : Floats → Places → String → String → Origin
fields_of floats places user_agent ip_address =
    let agent = places.agent_of user_agent in
    record {
      browser = agent.browser;
      browser_version = agent.browser_version;
      device_type = device_name agent.device_type;
      is_bot = agent.is_bot;
      os = agent.os;
      os_version = agent.os_version;
      geo_country = city_field places ip_address (λ geo. places.to_upper geo.country_code);
      geo_city = city_field places ip_address (λ geo. places.to_lower geo.city);
      geo_timezone = city_field places ip_address (λ geo. geo.timezone);
      geo_postal = city_field places ip_address (λ geo. geo.postal_code);
      geo_coordinates = city_field places ip_address (coordinates_of floats places);
      geo_isp = network_field places ip_address (λ info. info.organization);
    }

with_asn-network :
    (a : Option AsnInfo) (o : Origin)
    → o.geo_isp ≡ ""
    → with_asn a o ≡ record o { geo_isp = elim a [ none ↦ "" | some info ↦ info.organization ] }
unfolding with_asn
with_asn-network none o unset = ap (λ isp. record o { geo_isp = isp }) unset
with_asn-network (some info) o unset = elim (text_cases info.organization "") [
  | inl (same, e) ↦ rw e (ap (λ isp. record o { geo_isp = isp }) (unset ∙ sym same))
  | inr (differ, e) ↦ rw e refl
]

coordinates-coordinates_of :
    (floats : Floats) (places : Places) (geo : GeoLocation)
    → (if not (floats.is_zero geo.latitude) && not (floats.is_zero geo.longitude)
        then places.coordinates geo.latitude geo.longitude
        else "")
      ≡ coordinates_of floats places geo
coordinates-coordinates_of floats places geo = ground arith

pub origin_of-fields_of :
    (floats : Floats) (places : Places) (user_agent ip_address : String)
    → origin_of floats places user_agent ip_address ≡ fields_of floats places user_agent ip_address
unfolding origin_of of_agent with_city
origin_of-fields_of floats places user_agent ip_address = elim (text_cases ip_address "") [
  | inl (same, e) ↦ rw e refl
  | inr (differ, e) ↦ elim (Option-cases (places.city_of ip_address)) [
    | inl missing ↦ rw (e, missing) (with_asn-network (places.network_of ip_address) _ refl)
    | inr (geo, found) ↦
        rw (e, found)
          (with_asn-network (places.network_of ip_address) _ refl
            ∙ rw (coordinates-coordinates_of floats places geo) refl)
  ]
]
