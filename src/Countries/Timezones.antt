-- ===== src/Countries/Timezones.antt =====
-- src/modules/user/countries/data/country-timezone.data.ts.
use nestjs_boilerplate.Base.{Option, List, [], ◌∷◌, Text, codes, lookup}

unfoldable pub country_timezone_map : List (Text × Text)
country_timezone_map =
    (codes "GB", codes "Europe/London")
    ∷ (codes "IE", codes "Europe/Dublin")
    ∷ (codes "PT", codes "Europe/Lisbon")
    ∷ (codes "IS", codes "Atlantic/Reykjavik")
    ∷ (codes "FR", codes "Europe/Paris")
    ∷ (codes "DE", codes "Europe/Berlin")
    ∷ (codes "IT", codes "Europe/Rome")
    ∷ (codes "ES", codes "Europe/Madrid")
    ∷ (codes "NL", codes "Europe/Amsterdam")
    ∷ (codes "BE", codes "Europe/Brussels")
    ∷ (codes "CH", codes "Europe/Zurich")
    ∷ (codes "AT", codes "Europe/Vienna")
    ∷ (codes "SE", codes "Europe/Stockholm")
    ∷ (codes "NO", codes "Europe/Oslo")
    ∷ (codes "DK", codes "Europe/Copenhagen")
    ∷ (codes "PL", codes "Europe/Warsaw")
    ∷ (codes "CZ", codes "Europe/Prague")
    ∷ (codes "HU", codes "Europe/Budapest")
    ∷ (codes "SK", codes "Europe/Bratislava")
    ∷ (codes "SI", codes "Europe/Ljubljana")
    ∷ (codes "HR", codes "Europe/Zagreb")
    ∷ (codes "LU", codes "Europe/Luxembourg")
    ∷ (codes "LI", codes "Europe/Vaduz")
    ∷ (codes "MC", codes "Europe/Monaco")
    ∷ (codes "FI", codes "Europe/Helsinki")
    ∷ (codes "GR", codes "Europe/Athens")
    ∷ (codes "RO", codes "Europe/Bucharest")
    ∷ (codes "BG", codes "Europe/Sofia")
    ∷ (codes "TR", codes "Europe/Istanbul")
    ∷ (codes "EE", codes "Europe/Tallinn")
    ∷ (codes "LV", codes "Europe/Riga")
    ∷ (codes "LT", codes "Europe/Vilnius")
    ∷ (codes "BY", codes "Europe/Minsk")
    ∷ (codes "UA", codes "Europe/Kiev")
    ∷ (codes "MD", codes "Europe/Chisinau")
    ∷ (codes "RS", codes "Europe/Belgrade")
    ∷ (codes "BA", codes "Europe/Sarajevo")
    ∷ (codes "ME", codes "Europe/Podgorica")
    ∷ (codes "MK", codes "Europe/Skopje")
    ∷ (codes "AL", codes "Europe/Tirane")
    ∷ (codes "XK", codes "Europe/Pristina")
    ∷ (codes "CY", codes "Asia/Nicosia")
    ∷ (codes "MT", codes "Europe/Malta")
    ∷ (codes "US", codes "America/New_York")
    ∷ (codes "CA", codes "America/Toronto")
    ∷ (codes "MX", codes "America/Mexico_City")
    ∷ (codes "GT", codes "America/Guatemala")
    ∷ (codes "BZ", codes "America/Belize")
    ∷ (codes "SV", codes "America/El_Salvador")
    ∷ (codes "HN", codes "America/Tegucigalpa")
    ∷ (codes "NI", codes "America/Managua")
    ∷ (codes "CR", codes "America/Costa_Rica")
    ∷ (codes "PA", codes "America/Panama")
    ∷ (codes "CU", codes "America/Havana")
    ∷ (codes "JM", codes "America/Jamaica")
    ∷ (codes "HT", codes "America/Port-au-Prince")
    ∷ (codes "DO", codes "America/Santo_Domingo")
    ∷ (codes "PR", codes "America/Puerto_Rico")
    ∷ (codes "TT", codes "America/Port_of_Spain")
    ∷ (codes "BB", codes "America/Barbados")
    ∷ (codes "BR", codes "America/Sao_Paulo")
    ∷ (codes "AR", codes "America/Argentina/Buenos_Aires")
    ∷ (codes "CL", codes "America/Santiago")
    ∷ (codes "CO", codes "America/Bogota")
    ∷ (codes "PE", codes "America/Lima")
    ∷ (codes "VE", codes "America/Caracas")
    ∷ (codes "EC", codes "America/Guayaquil")
    ∷ (codes "BO", codes "America/La_Paz")
    ∷ (codes "PY", codes "America/Asuncion")
    ∷ (codes "UY", codes "America/Montevideo")
    ∷ (codes "GY", codes "America/Guyana")
    ∷ (codes "SR", codes "America/Paramaribo")
    ∷ (codes "CN", codes "Asia/Shanghai")
    ∷ (codes "JP", codes "Asia/Tokyo")
    ∷ (codes "KR", codes "Asia/Seoul")
    ∷ (codes "KP", codes "Asia/Pyongyang")
    ∷ (codes "MN", codes "Asia/Ulaanbaatar")
    ∷ (codes "TW", codes "Asia/Taipei")
    ∷ (codes "HK", codes "Asia/Hong_Kong")
    ∷ (codes "MO", codes "Asia/Macau")
    ∷ (codes "TH", codes "Asia/Bangkok")
    ∷ (codes "VN", codes "Asia/Ho_Chi_Minh")
    ∷ (codes "PH", codes "Asia/Manila")
    ∷ (codes "ID", codes "Asia/Jakarta")
    ∷ (codes "MY", codes "Asia/Kuala_Lumpur")
    ∷ (codes "SG", codes "Asia/Singapore")
    ∷ (codes "MM", codes "Asia/Yangon")
    ∷ (codes "KH", codes "Asia/Phnom_Penh")
    ∷ (codes "LA", codes "Asia/Vientiane")
    ∷ (codes "BN", codes "Asia/Brunei")
    ∷ (codes "TL", codes "Asia/Dili")
    ∷ (codes "IN", codes "Asia/Kolkata")
    ∷ (codes "PK", codes "Asia/Karachi")
    ∷ (codes "BD", codes "Asia/Dhaka")
    ∷ (codes "LK", codes "Asia/Colombo")
    ∷ (codes "NP", codes "Asia/Kathmandu")
    ∷ (codes "BT", codes "Asia/Thimphu")
    ∷ (codes "MV", codes "Indian/Maldives")
    ∷ (codes "KZ", codes "Asia/Almaty")
    ∷ (codes "UZ", codes "Asia/Tashkent")
    ∷ (codes "TM", codes "Asia/Ashgabat")
    ∷ (codes "KG", codes "Asia/Bishkek")
    ∷ (codes "TJ", codes "Asia/Dushanbe")
    ∷ (codes "AF", codes "Asia/Kabul")
    ∷ (codes "SA", codes "Asia/Riyadh")
    ∷ (codes "AE", codes "Asia/Dubai")
    ∷ (codes "IL", codes "Asia/Jerusalem")
    ∷ (codes "IQ", codes "Asia/Baghdad")
    ∷ (codes "IR", codes "Asia/Tehran")
    ∷ (codes "JO", codes "Asia/Amman")
    ∷ (codes "LB", codes "Asia/Beirut")
    ∷ (codes "SY", codes "Asia/Damascus")
    ∷ (codes "YE", codes "Asia/Aden")
    ∷ (codes "OM", codes "Asia/Muscat")
    ∷ (codes "KW", codes "Asia/Kuwait")
    ∷ (codes "QA", codes "Asia/Qatar")
    ∷ (codes "BH", codes "Asia/Bahrain")
    ∷ (codes "AM", codes "Asia/Yerevan")
    ∷ (codes "AZ", codes "Asia/Baku")
    ∷ (codes "GE", codes "Asia/Tbilisi")
    ∷ (codes "EG", codes "Africa/Cairo")
    ∷ (codes "LY", codes "Africa/Tripoli")
    ∷ (codes "TN", codes "Africa/Tunis")
    ∷ (codes "DZ", codes "Africa/Algiers")
    ∷ (codes "MA", codes "Africa/Casablanca")
    ∷ (codes "SD", codes "Africa/Khartoum")
    ∷ (codes "NG", codes "Africa/Lagos")
    ∷ (codes "GH", codes "Africa/Accra")
    ∷ (codes "CI", codes "Africa/Abidjan")
    ∷ (codes "SN", codes "Africa/Dakar")
    ∷ (codes "ML", codes "Africa/Bamako")
    ∷ (codes "BF", codes "Africa/Ouagadougou")
    ∷ (codes "NE", codes "Africa/Niamey")
    ∷ (codes "GN", codes "Africa/Conakry")
    ∷ (codes "SL", codes "Africa/Freetown")
    ∷ (codes "LR", codes "Africa/Monrovia")
    ∷ (codes "KE", codes "Africa/Nairobi")
    ∷ (codes "ET", codes "Africa/Addis_Ababa")
    ∷ (codes "TZ", codes "Africa/Dar_es_Salaam")
    ∷ (codes "UG", codes "Africa/Kampala")
    ∷ (codes "RW", codes "Africa/Kigali")
    ∷ (codes "SO", codes "Africa/Mogadishu")
    ∷ (codes "DJ", codes "Africa/Djibouti")
    ∷ (codes "ER", codes "Africa/Asmara")
    ∷ (codes "ZA", codes "Africa/Johannesburg")
    ∷ (codes "ZW", codes "Africa/Harare")
    ∷ (codes "ZM", codes "Africa/Lusaka")
    ∷ (codes "BW", codes "Africa/Gaborone")
    ∷ (codes "MW", codes "Africa/Blantyre")
    ∷ (codes "MZ", codes "Africa/Maputo")
    ∷ (codes "NA", codes "Africa/Windhoek")
    ∷ (codes "LS", codes "Africa/Maseru")
    ∷ (codes "SZ", codes "Africa/Mbabane")
    ∷ (codes "CD", codes "Africa/Kinshasa")
    ∷ (codes "AO", codes "Africa/Luanda")
    ∷ (codes "CM", codes "Africa/Douala")
    ∷ (codes "CF", codes "Africa/Bangui")
    ∷ (codes "TD", codes "Africa/Ndjamena")
    ∷ (codes "CG", codes "Africa/Brazzaville")
    ∷ (codes "GA", codes "Africa/Libreville")
    ∷ (codes "AU", codes "Australia/Sydney")
    ∷ (codes "NZ", codes "Pacific/Auckland")
    ∷ (codes "PG", codes "Pacific/Port_Moresby")
    ∷ (codes "FJ", codes "Pacific/Fiji")
    ∷ (codes "NC", codes "Pacific/Noumea")
    ∷ (codes "SB", codes "Pacific/Guadalcanal")
    ∷ (codes "VU", codes "Pacific/Efate")
    ∷ (codes "WS", codes "Pacific/Apia")
    ∷ (codes "TO", codes "Pacific/Tongatapu")
    ∷ (codes "KI", codes "Pacific/Tarawa")
    ∷ (codes "RU", codes "Europe/Moscow")
    ∷ []

-- `upper` is `toUpperCase`.
unfoldable pub get_timezone_from_country : (Text → Text) → Text → Option Text
get_timezone_from_country upper code = lookup (upper code) country_timezone_map
